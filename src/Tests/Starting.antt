-- ===== src/Tests/Starting.antt =====
-- Starting a child and owned slices at concrete inputs.
use crossmist.Common.{ℕ, ◌≡◌, inl, refl, arith, Bool, true, false, List, [], ◌∷◌, ◌++◌}
use crossmist.Owning.{drop_rest, iterate, iterate-drop}
use crossmist.Builtins.Sum.{ok_value}
use crossmist.Tests.Pairing.{put, put_same}
use crossmist.Start.{
  Descriptors, panics, Enters, init, perform_sanity_checks, child_arguments, child_starts,
}

-- A process in which the system never refuses `fcntl`.
abbrev pub some_files : Descriptors
some_files = record {
  Files = ℕ → Bool;
  closes_on_exec = λ files. files;
  fcntl_setfd = λ fd files. (ok_value tt, put fd true files);
  fcntl_setfd_lem = λ fd files. inl (put fd true files, refl, put_same fd true files);
}

abbrev inherited : ℕ → Bool
inherited fd = false

child_starts_example :
    Enters some_files 205 inherited (init some_files false (child_arguments 205) inherited)
    × (perform_sanity_checks (init some_files false (child_arguments 205) inherited).1 ≡ true)
    × ((init some_files (init some_files false [] inherited).1 [] inherited).0 ≡ panics)
child_starts_example = child_starts some_files 205 [] inherited (omega arith)

abbrev three_fds : List ℕ
three_fds = 5 ∷ 6 ∷ 7 ∷ []

iterate-drop_example :
    (iterate 2 (record { elements = three_fds })).0
      ++ drop_rest (iterate 2 (record { elements = three_fds })).1
    ≡ three_fds
iterate-drop_example = iterate-drop 2 three_fds
