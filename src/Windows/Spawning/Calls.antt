-- ===== src/Windows/Spawning/Calls.antt =====
-- The system calls of src/platform/windows/subprocess.rs, with their documented behaviour.
use crossmist.Common.{
  ℕ, ◌+◌, ◌%◌, ◌^◌, ◌≤◌, ◌<◌, ◌≡◌, ◌≢◌, ◌⊎◌, Option, none, List, [], ◌∷◌, ◌++◌, All, length,
}
use crossmist.Builtins.Sum.{Result, ok_value, err_value}
use crossmist.Unix.Socket.{Error}
use crossmist.Windows.Spawning.View.{
  InitData, View, opens, closes, Limit, limits, creates, duplicates, injects, resumes,
}

abbrev pub u32_max : ℕ
u32_max = 4294967295

-- A call that returns nothing: it has its effect, or there is an error and no effect.
abbrev pub Acts :
    {World : Type 0}
    → (World → View)
    → (World → Result (Unit {0}) Error × World)
    → (View → View)
    → World
    → Type 0
Acts {World} view call effect w =
    ((w' : World) × (call w ≡ (ok_value tt, w')) × (view w' ≡ effect (view w)))
    ⊎ ((e : Error) × (w' : World) × (call w ≡ (err_value e, w')) × (view w' ≡ view w))

-- A call that returns a number and has no effect that matters here.
abbrev pub Tells :
    {World : Type 0}
    → (World → View)
    → (World → Result ℕ Error × World)
    → (ℕ → Type 0)
    → World
    → Type 0
Tells {World} view call Told w =
    ((n : ℕ) × (w' : World) × (call w ≡ (ok_value n, w')) × (view w' ≡ view w) × Told n)
    ⊎ ((e : Error) × (w' : World) × (call w ≡ (err_value e, w')) × (view w' ≡ view w))

pub record SpawnCalls : Type 1 where
  pub World : Type 0
  pub view : World → View
  -- `CreateJobObjectW` and `SetInformationJobObject`
  pub create_job : World → Result ℕ Error × World
  pub set_limits : ℕ → Limit → World → Result (Unit {0}) Error × World
  -- `InitializeProcThreadAttributeList` for the size and for a list, `UpdateProcThreadAttribute`,
  -- `DeleteProcThreadAttributeList`. A list is the jobs in it.
  pub attrs_size : World → ℕ × World
  pub init_attrs : ℕ → World → Result (Unit {0}) Error × World
  pub update_attrs : ℕ → World → Result (Unit {0}) Error × World
  pub delete_attrs : World → World
  -- `GetModuleFileNameW` into a buffer of a size: what it returns and the buffer.
  pub module_file_name : ℕ → World → ℕ × List ℕ × World
  pub last_error : World → Error
  -- `CreateProcessW`, suspended, with a name, a command line and the jobs of the attributes; the
  -- handles of the process and the thread, and the process ID.
  pub create_process : List ℕ → Option (List ℕ) → List ℕ → World → Result (ℕ × ℕ × ℕ) Error × World
  -- `DuplicateHandle` into the process of a handle
  pub duplicate : ℕ → ℕ → World → Result ℕ Error × World
  -- `NtQueryInformationProcess`, for the address of the PEB; its field `Reserved3[1]` in this process,
  -- and `ReadProcessMemory` of it in another one; `WriteProcessMemory`
  pub current_process : ℕ
  pub query_peb : ℕ → World → Result ℕ Error × World
  pub peb_field : ℕ → ℕ
  pub read_memory : ℕ → ℕ → World → Result ℕ Error × World
  pub write_memory : ℕ → ℕ → InitData → World → Result (Unit {0}) Error × World
  pub resume_thread : ℕ → World → ℕ × World
  pub close : ℕ → World → World
  -- Where the image of a process starts, and where `INIT_DATA` lies in it; the process of a thread.
  pub image_base : ℕ → ℕ
  pub own_base : ℕ
  pub init_data_offset : ℕ
  pub thread_pid : ℕ → ℕ
  -- The file name of the program.
  pub own_name : List ℕ
  pub own_base_small : own_base < 2 ^ 64
  pub create_job_lem :
      (w : World)
      → ((j : ℕ) × (w' : World) × (create_job w ≡ (ok_value j, w')) × (view w' ≡ opens j (view w)))
        ⊎ ((e : Error) × (w' : World) × (create_job w ≡ (err_value e, w')) × (view w' ≡ view w))
  pub set_limits_lem :
      (j : ℕ) (limit : Limit) (w : World) → Acts view (set_limits j limit) (limits j limit) w
  pub attrs_size_lem : (w : World) → view (attrs_size w).1 ≡ view w
  pub init_attrs_lem : (size : ℕ) (w : World) → Acts view (init_attrs size) (λ v. v) w
  pub update_attrs_lem : (j : ℕ) (w : World) → Acts view (update_attrs j) (λ v. v) w
  pub delete_attrs_lem : (w : World) → view (delete_attrs w) ≡ view w
  pub module_file_name_lem : (size : ℕ) (w : World) → view (module_file_name size w).2 ≡ view w
  -- The name and a zero, if they fit, and otherwise the size.
  pub module_name_lem :
      (size : ℕ) (w : World)
      → ((module_file_name size w).0 ≡ 0)
        ⊎ ((rest : List ℕ) × (length own_name < size)
            × (0 < length own_name)
            × ((module_file_name size w).0 ≡ length own_name)
            × ((module_file_name size w).1 ≡ own_name ++ 0 ∷ rest))
        ⊎ ((size ≤ length own_name) × ((module_file_name size w).0 ≡ size))
  pub create_process_lem :
      (name : List ℕ) (cmd : Option (List ℕ)) (j : ℕ) (w : World)
      → ((p : ℕ) × (t : ℕ) × (pid : ℕ) × (w' : World) × (create_process name cmd (j ∷ []) w
            ≡ (ok_value (p, t, pid), w'))
          × (view w' ≡ creates p t pid j (view w))
          × All (λ h. (p ≢ h) × (t ≢ h)) (view w).owned
          × (t ≢ p)
          × (thread_pid t ≡ pid))
        ⊎ ((e : Error) × (w' : World) × (create_process name cmd (j ∷ []) w ≡ (err_value e, w'))
            × (view w' ≡ view w))
  pub duplicate_lem :
      (h p : ℕ) (w : World)
      → ((r : ℕ) × (w' : World) × (duplicate h p w ≡ (ok_value r, w'))
          × (view w' ≡ duplicates h ((view w).pid_of p) r (view w))
          × ((view w).table ((view w).pid_of p) r ≡ none))
        ⊎ ((e : Error) × (w' : World) × (duplicate h p w ≡ (err_value e, w')) × (view w' ≡ view w))
  pub query_own_peb_lem :
      (w : World) → Tells view (query_peb current_process) (λ peb. peb_field peb ≡ own_base) w
  pub query_peb_lem : (p : ℕ) (w : World) → Tells view (query_peb p) (λ peb. Unit) w
  pub read_memory_lem :
      (p peb : ℕ) (w : World)
      → Tells view
          (read_memory p peb)
          (λ base. (base ≡ image_base ((view w).pid_of p)) × (base < 2 ^ 64))
          w
  pub write_memory_lem :
      (p at : ℕ) (info : InitData) (w : World)
      → at ≡ (image_base ((view w).pid_of p) + init_data_offset) % 2 ^ 64
      → Acts view (write_memory p at info) (injects ((view w).pid_of p) info) w
  pub resume_thread_lem :
      (t : ℕ) (w : World)
      → ((n : ℕ) × (w' : World) × (resume_thread t w ≡ (n, w'))
          × (n ≢ u32_max)
          × (view w' ≡ resumes (thread_pid t) (view w)))
        ⊎ ((w' : World) × (resume_thread t w ≡ (u32_max, w')) × (view w' ≡ view w))
  pub close_lem : (h : ℕ) (w : World) → view (close h w) ≡ closes h (view w)
