-- ===== src/Editor/Returns.antt =====
-- jordyOS/app_edit.c: the rounds and the loop of the editor.
use os_research_lab.Base.{ℕ, ◌<◌, List, true, length, get_or, ◌≡◌}
use os_research_lab.Fs.Invariant.{IsFs}
use os_research_lab.Editor.{Editor}
use os_research_lab.Editor.Mode.{IsEditor}
use os_research_lab.Editor.Commands.{Turn}
use os_research_lab.Editor.Session.{command_buffer_size}

-- A string ends inside its array.
abbrev pub Ends : List ℕ → Type 0
Ends s = (k : ℕ) × (get_or s k 1 ≡ 0)

-- The array of the command line has its size.
abbrev pub IsLine : List ℕ → Type 0
IsLine line = length line ≡ command_buffer_size

-- What a round leaves; it read a key.
abbrev IsRound : List ℕ → List ℕ × Turn → Type 0
IsRound keys (line, t) =
    IsLine line × IsEditor t.editor × IsFs t.files × (length t.rest < length keys)

-- The editor was left by `quit`, with everything valid.
abbrev pub IsLeft : Turn → Type 0
IsLeft t = IsEditor t.editor × IsFs t.files × (t.quit ≡ true)
