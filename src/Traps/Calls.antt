-- ===== src/Traps/Calls.antt =====
-- do_syscall of kernel/src/do_syscall.c: its switch on the number of the call, with the numbers of
-- lib/syscall.h. Which service is called is a value, and what it does a parameter of do_syscall.
pub mod Stubs
use sebopesyslab.Base.{
  ℕ, ◌+◌, ◌%◌, ◌^◌, Bool, true, false, not, ◌&&◌, ◌==◌, if◌then◌else◌, List, [], ◌∷◌, map, Option,
  none, some, u8, ◌≡◌, ◌≢◌, refl, ap, ne→==_false, arith,
}

-- The registers of `struct TrapFrame` that carry a call.
pub record Registers : Type 0 where
  pub eax : ℕ
  pub ebx : ℕ
  pub ecx : ℕ
  pub edx : ℕ

abbrev pub sys_exec : ℕ
sys_exec = 1900

abbrev pub sys_readline : ℕ
sys_readline = 1800

abbrev pub sys_fs_ls : ℕ
sys_fs_ls = 1705

abbrev pub sys_fs_open : ℕ
sys_fs_open = 1700

abbrev pub sys_fs_read : ℕ
sys_fs_read = 1701

abbrev pub sys_fs_write : ℕ
sys_fs_write = 1702

abbrev pub sys_fs_lseek : ℕ
sys_fs_lseek = 1703

abbrev pub sys_fs_close : ℕ
sys_fs_close = 1704

abbrev pub sys_sem_init : ℕ
sys_sem_init = 1600

abbrev pub sys_sem_open : ℕ
sys_sem_open = 1601

abbrev pub sys_sem_post : ℕ
sys_sem_post = 1602

abbrev pub sys_sem_wait : ℕ
sys_sem_wait = 1603

abbrev pub sys_sem_trywait : ℕ
sys_sem_trywait = 1606

abbrev pub sys_sem_close : ℕ
sys_sem_close = 1604

abbrev pub sys_sem_get : ℕ
sys_sem_get = 1605

abbrev pub sys_thread : ℕ
sys_thread = 1510

abbrev pub sys_join : ℕ
sys_join = 1506

abbrev pub sys_pid : ℕ
sys_pid = 1501

abbrev pub sys_ppid : ℕ
sys_ppid = 1505

abbrev pub sys_sleep : ℕ
sys_sleep = 1502

abbrev pub sys_handout : ℕ
sys_handout = 1500

abbrev pub sys_exit : ℕ
sys_exit = 1503

abbrev pub sys_fork : ℕ
sys_fork = 1504

abbrev pub sys_print_char : ℕ
sys_print_char = 1000

abbrev pub sys_init_cache : ℕ
sys_init_cache = 1100

abbrev pub sys_clear_vram : ℕ
sys_clear_vram = 1101

abbrev pub sys_flush_vcache : ℕ
sys_flush_vcache = 1102

abbrev pub sys_set_pixel : ℕ
sys_set_pixel = 1103

abbrev pub sys_get_key : ℕ
sys_get_key = 1200

abbrev pub sys_get_tick : ℕ
sys_get_tick = 1301

abbrev pub sys_add_timer : ℕ
sys_add_timer = 1300

-- A service of the kernel with its arguments. The names are those of the calls.
pub data Request : Type 0 where
  pid ppid handout exit fork init_cache clear_vram flush_vcache get_tick : Request
  exec readline fs_ls fs_close sem_post sem_wait sem_trywait sem_close sem_get join sleep print_char
        get_key :
      ℕ → Request
  fs_open sem_init sem_open : ℕ → ℕ → Request
  fs_read fs_write fs_lseek thread set_pixel : ℕ → ℕ → ℕ → Request

-- The `switch` on eax.
pub dispatch : Registers → Option Request
dispatch r =
    if r.eax == sys_exec
    then some (exec r.ebx)
    else if r.eax == sys_readline
    then some (readline r.ebx)
    else if r.eax == sys_fs_ls
    then some (fs_ls r.ebx)
    else if r.eax == sys_fs_open
    then some (fs_open r.ebx r.ecx)
    else if r.eax == sys_fs_read
    then some (fs_read r.ebx r.ecx r.edx)
    else if r.eax == sys_fs_write
    then some (fs_write r.ebx r.ecx r.edx)
    else if r.eax == sys_fs_lseek
    then some (fs_lseek r.ebx r.ecx r.edx)
    else if r.eax == sys_fs_close
    then some (fs_close r.ebx)
    else if r.eax == sys_sem_init
    then some (sem_init r.ebx r.ecx)
    else if r.eax == sys_sem_open
    then some (sem_open r.ebx r.ecx)
    else if r.eax == sys_sem_post
    then some (sem_post r.ebx)
    else if r.eax == sys_sem_wait
    then some (sem_wait r.ebx)
    else if r.eax == sys_sem_trywait
    then some (sem_trywait r.ebx)
    else if r.eax == sys_sem_close
    then some (sem_close r.ebx)
    else if r.eax == sys_sem_get
    then some (sem_get r.ebx)
    else if r.eax == sys_thread
    then some (thread r.ebx r.ecx r.edx)
    else if r.eax == sys_join
    then some (join r.ebx)
    else if r.eax == sys_pid
    then some pid
    else if r.eax == sys_ppid
    then some ppid
    else if r.eax == sys_sleep
    then some (sleep r.ebx)
    else if r.eax == sys_handout
    then some handout
    else if r.eax == sys_exit
    then some exit
    else if r.eax == sys_fork
    then some fork
    else if r.eax == sys_print_char
    then some (print_char r.ebx)
    else if r.eax == sys_init_cache
    then some init_cache
    else if r.eax == sys_clear_vram
    then some clear_vram
    else if r.eax == sys_flush_vcache
    then some flush_vcache
    else if r.eax == sys_set_pixel
    then some (set_pixel r.ebx r.ecx (u8 r.edx))
    else if r.eax == sys_get_key
    then some (get_key r.ebx)
    else if r.eax == sys_get_tick
    then some get_tick
    else none

-- `tf->eax = …`
pub writes_eax : Request → Bool
writes_eax (exec a) = false
writes_eax (readline a) = false
writes_eax (fs_ls a) = false
writes_eax (fs_open a b) = true
writes_eax (fs_read a b c) = true
writes_eax (fs_write a b c) = true
writes_eax (fs_lseek a b c) = true
writes_eax (fs_close a) = true
writes_eax (sem_init a b) = false
writes_eax (sem_open a b) = true
writes_eax (sem_post a) = false
writes_eax (sem_wait a) = false
writes_eax (sem_trywait a) = true
writes_eax (sem_close a) = false
writes_eax (sem_get a) = true
writes_eax (thread a b c) = false
writes_eax (join a) = false
writes_eax pid = true
writes_eax ppid = true
writes_eax (sleep a) = false
writes_eax handout = false
writes_eax exit = false
writes_eax fork = false
writes_eax (print_char a) = false
writes_eax init_cache = false
writes_eax clear_vram = false
writes_eax flush_vcache = false
writes_eax (set_pixel a b c) = false
writes_eax (get_key a) = true
writes_eax get_tick = true

module _ {S : Type 0} (service : Request → S → ℕ × S) where
  -- do_syscall: the new registers and the new state.
  pub do_syscall : Registers → S → Registers × S
  do_syscall r s = elim (dispatch r) [
    | none ↦ (r, s)
    | some q ↦
        (let out = service q s in (if writes_eax q then record r { eax = out.0 } else r, out.1))
  ]

-- After a call that comes back, irq_handle runs the scheduler, unless the call was sys_printch.
abbrev pub reschedules : Registers → Bool
reschedules r = not (r.eax == sys_print_char)
