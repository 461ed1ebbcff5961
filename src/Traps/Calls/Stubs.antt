-- ===== src/Traps/Calls/Stubs.antt =====
-- The functions of lib/syscall.h: which traps each of them makes.
use sebopesyslab.Base.{ℕ, List, [], ◌∷◌, map, Option, none, some, u8, ◌≡◌, refl}
use sebopesyslab.Traps.Calls.{
  Registers, Request, dispatch, exec, readline, fs_ls, fs_open, fs_read, fs_write, fs_lseek,
  fs_close, sem_init, sem_open, sem_post, sem_wait, sem_trywait, sem_close, sem_get, thread, join,
  pid, ppid, sleep, handout, exit, fork, print_char, init_cache, clear_vram, flush_vcache,
  set_pixel, get_key, get_tick, sys_add_timer, sys_clear_vram, sys_exec, sys_exit, sys_flush_vcache,
  sys_fork, sys_fs_close, sys_fs_ls, sys_fs_lseek, sys_fs_open, sys_fs_read, sys_fs_write,
  sys_get_key, sys_get_tick, sys_handout, sys_init_cache, sys_join, sys_pid, sys_ppid,
  sys_print_char, sys_readline, sys_sem_close, sys_sem_get, sys_sem_init, sys_sem_open,
  sys_sem_post, sys_sem_trywait, sys_sem_wait, sys_set_pixel, sys_sleep, sys_thread,
}

-- The traps of the library's function for a request, from the registers `old`: eax has the number,
-- ebx, ecx and edx the arguments. `sys_exit` is the address of that function.
pub data Call : Type 0 where
  call_pid call_ppid call_handout call_exit call_fork call_init_cache call_clear_vram
        call_flush_vcache call_get_tick :
      Call
  call_exec call_readline call_fs_ls call_fs_close call_sem_post call_sem_wait call_sem_trywait
        call_sem_close call_sem_get call_join call_sleep call_print_char call_get_key
        call_add_timer :
      ℕ → Call
  call_fs_open call_sem_init call_sem_open call_thread : ℕ → ℕ → Call
  call_fs_read call_fs_write call_fs_lseek call_set_pixel : ℕ → ℕ → ℕ → Call

pub trap_registers : (sys_exit : ℕ) → Call → Registers → List Registers
trap_registers e (call_exec a) r = record r { eax = sys_exec; ebx = a } ∷ []
trap_registers e (call_readline a) r = record r { eax = sys_readline; ebx = a } ∷ []
trap_registers e (call_fs_ls a) r = record r { eax = sys_fs_ls; ebx = a } ∷ []
trap_registers e (call_fs_open a b) r = record r { eax = sys_fs_open; ebx = a; ecx = b } ∷ []
trap_registers e (call_fs_read a b c) r =
    record r { eax = sys_fs_read; ebx = a; ecx = b; edx = c } ∷ []
trap_registers e (call_fs_write a b c) r =
    record r { eax = sys_fs_write; ebx = a; ecx = b; edx = c } ∷ []
trap_registers e (call_fs_lseek a b c) r =
    record r { eax = sys_fs_lseek; ebx = a; ecx = b; edx = c } ∷ []
trap_registers e (call_fs_close a) r = record r { eax = sys_fs_close; ebx = a } ∷ []
trap_registers e (call_sem_init a b) r = record r { eax = sys_sem_init; ebx = a; ecx = b } ∷ []
trap_registers e (call_sem_open a b) r = record r { eax = sys_sem_open; ebx = a; ecx = b } ∷ []
trap_registers e (call_sem_post a) r = record r { eax = sys_sem_post; ebx = a } ∷ []
trap_registers e (call_sem_wait a) r = record r { eax = sys_sem_wait; ebx = a } ∷ []
trap_registers e (call_sem_trywait a) r = record r { eax = sys_sem_trywait; ebx = a } ∷ []
trap_registers e (call_sem_close a) r = record r { eax = sys_sem_close; ebx = a } ∷ []
trap_registers e (call_sem_get a) r = record r { eax = sys_sem_get; ebx = a } ∷ []
trap_registers e (call_thread a b) r = record r { eax = sys_thread; ebx = a; ecx = e; edx = b } ∷ []
trap_registers e (call_join a) r = record r { eax = sys_join; ebx = a } ∷ []
trap_registers e call_pid r = record r { eax = sys_pid } ∷ []
trap_registers e call_ppid r = record r { eax = sys_ppid } ∷ []
trap_registers e (call_sleep a) r = record r { eax = sys_sleep; ebx = a } ∷ []
trap_registers e call_handout r = record r { eax = sys_handout } ∷ []
trap_registers e call_exit r = record r { eax = sys_handout } ∷ record r { eax = sys_exit } ∷ []
trap_registers e call_fork r = record r { eax = sys_fork } ∷ []
trap_registers e (call_print_char a) r = record r { eax = sys_print_char; ebx = a } ∷ []
trap_registers e call_init_cache r = record r { eax = sys_init_cache } ∷ []
trap_registers e call_clear_vram r = record r { eax = sys_clear_vram } ∷ []
trap_registers e call_flush_vcache r = record r { eax = sys_flush_vcache } ∷ []
trap_registers e (call_set_pixel a b c) r =
    record r { eax = sys_set_pixel; ebx = a; ecx = b; edx = c } ∷ []
trap_registers e (call_get_key a) r = record r { eax = sys_get_key; ebx = a } ∷ []
trap_registers e call_get_tick r = record r { eax = sys_get_tick } ∷ []
trap_registers e (call_add_timer a) r = record r { eax = sys_add_timer; ebx = a } ∷ []

-- What a function of the library asks for.
abbrev pub wanted : (sys_exit : ℕ) → Call → List (Option Request)
wanted e (call_exec a) = some (exec a) ∷ []
wanted e (call_readline a) = some (readline a) ∷ []
wanted e (call_fs_ls a) = some (fs_ls a) ∷ []
wanted e (call_fs_open a b) = some (fs_open a b) ∷ []
wanted e (call_fs_read a b c) = some (fs_read a b c) ∷ []
wanted e (call_fs_write a b c) = some (fs_write a b c) ∷ []
wanted e (call_fs_lseek a b c) = some (fs_lseek a b c) ∷ []
wanted e (call_fs_close a) = some (fs_close a) ∷ []
wanted e (call_sem_init a b) = some (sem_init a b) ∷ []
wanted e (call_sem_open a b) = some (sem_open a b) ∷ []
wanted e (call_sem_post a) = some (sem_post a) ∷ []
wanted e (call_sem_wait a) = some (sem_wait a) ∷ []
wanted e (call_sem_trywait a) = some (sem_trywait a) ∷ []
wanted e (call_sem_close a) = some (sem_close a) ∷ []
wanted e (call_sem_get a) = some (sem_get a) ∷ []
wanted e (call_thread a b) = some (thread a e b) ∷ []
wanted e (call_join a) = some (join a) ∷ []
wanted e call_pid = some pid ∷ []
wanted e call_ppid = some ppid ∷ []
wanted e (call_sleep a) = some (sleep a) ∷ []
wanted e call_handout = some handout ∷ []
wanted e call_exit = some handout ∷ some exit ∷ []
wanted e call_fork = some fork ∷ []
wanted e (call_print_char a) = some (print_char a) ∷ []
wanted e call_init_cache = some init_cache ∷ []
wanted e call_clear_vram = some clear_vram ∷ []
wanted e call_flush_vcache = some flush_vcache ∷ []
wanted e (call_set_pixel a b c) = some (set_pixel a b (u8 c)) ∷ []
wanted e (call_get_key a) = some (get_key a) ∷ []
wanted e call_get_tick = some get_tick ∷ []
wanted e (call_add_timer a) = none ∷ []

-- For each function of the library that traps and any arguments and old registers, the switch
-- of do_syscall finds in the registers the service that the function is named for, with the
-- same arguments (the color of a pixel modulo 256): a yield and then an exit for sys_exit, and
-- nothing at all for sys_add_timer.
pub dispatch-trap_registers :
    (e : ℕ) (c : Call) (old : Registers) → map dispatch (trap_registers e c old) ≡ wanted e c
unfolding dispatch trap_registers
dispatch-trap_registers e (call_exec a) old = refl
dispatch-trap_registers e (call_readline a) old = refl
dispatch-trap_registers e (call_fs_ls a) old = refl
dispatch-trap_registers e (call_fs_open a b) old = refl
dispatch-trap_registers e (call_fs_read a b c) old = refl
dispatch-trap_registers e (call_fs_write a b c) old = refl
dispatch-trap_registers e (call_fs_lseek a b c) old = refl
dispatch-trap_registers e (call_fs_close a) old = refl
dispatch-trap_registers e (call_sem_init a b) old = refl
dispatch-trap_registers e (call_sem_open a b) old = refl
dispatch-trap_registers e (call_sem_post a) old = refl
dispatch-trap_registers e (call_sem_wait a) old = refl
dispatch-trap_registers e (call_sem_trywait a) old = refl
dispatch-trap_registers e (call_sem_close a) old = refl
dispatch-trap_registers e (call_sem_get a) old = refl
dispatch-trap_registers e (call_thread a b) old = refl
dispatch-trap_registers e (call_join a) old = refl
dispatch-trap_registers e call_pid old = refl
dispatch-trap_registers e call_ppid old = refl
dispatch-trap_registers e (call_sleep a) old = refl
dispatch-trap_registers e call_handout old = refl
dispatch-trap_registers e call_exit old = refl
dispatch-trap_registers e call_fork old = refl
dispatch-trap_registers e (call_print_char a) old = refl
dispatch-trap_registers e call_init_cache old = refl
dispatch-trap_registers e call_clear_vram old = refl
dispatch-trap_registers e call_flush_vcache old = refl
dispatch-trap_registers e (call_set_pixel a b c) old = refl
dispatch-trap_registers e (call_get_key a) old = refl
dispatch-trap_registers e call_get_tick old = refl
dispatch-trap_registers e (call_add_timer a) old = refl
