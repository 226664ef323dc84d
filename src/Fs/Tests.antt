-- ===== src/Fs/Tests.antt =====
-- Examples for the file system of kernel.c: a file of three bytes is written, read and deleted.
use os_research_lab.Base.{ℕ, List, [], ◌∷◌, some, none, if◌then◌else◌, ◌≡◌, ◌⊎◌}
use os_research_lab.Fs.{
  File, ok, failed, str_eq, fs_init, sys_write_file, sys_read_file, sys_delete_file,
}
use os_research_lab.Fs.View.{view}
use os_research_lab.Fs.Laws.{Written, read_of, sys_write_file_lem, sys_read_file_lem}
use os_research_lab.Fs.Invariant.{IsFs, fs_init-IsFs, sys_write_file-IsFs, sys_delete_file_lem}

abbrev note : List ℕ
note = b'n' ∷ b'o' ∷ b't' ∷ b'e' ∷ []

abbrev three : List ℕ
three = 1 ∷ 2 ∷ 3 ∷ []

abbrev one_file : List File
one_file = (sys_write_file fs_init (some note) (some three)).1

sys_write_file_lem_example :
    Written fs_init note three (sys_write_file fs_init (some note) (some three)).0 one_file
sys_write_file_lem_example = sys_write_file_lem fs_init note three

sys_write_file-IsFs_example : IsFs one_file
sys_write_file-IsFs_example = sys_write_file-IsFs fs_init (some note) (some three) fs_init-IsFs

one_file-IsFs : IsFs one_file
one_file-IsFs = sys_write_file-IsFs fs_init (some note) (some three) fs_init-IsFs

sys_read_file_lem_example : sys_read_file one_file (some note) 10 ≡ read_of (view one_file note) 10
sys_read_file_lem_example = sys_read_file_lem one_file note 10 one_file-IsFs

sys_delete_file_lem_example :
    ((view one_file note ≡ none) × (sys_delete_file one_file (some note) ≡ (failed 1, one_file)))
    ⊎ ((after : List File) × (sys_delete_file one_file (some note) ≡ (ok 0, after))
        × ((n : List ℕ) → view after n ≡ (if str_eq note n then none else view one_file n))
        × IsFs after)
sys_delete_file_lem_example = sys_delete_file_lem one_file note one_file-IsFs
