-- ===== src/Isolation/Calls.antt =====
-- jordyOS/isolation.c: the bytes of the process that a system call writes.
use os_research_lab.Base.{
  ℕ, ◌+◌, ◌*◌, ◌≤◌, ◌<◌, List, [], ◌∷◌, ◌++◌, Option, some, none, true, false, not, ◌&&◌, ◌||◌, leb,
  ltb, ◌==◌, ◌!=◌, length, replicate, take, length-take, length-replicate, ◌≡◌, refl, arith, if-P,
  lts64,
}
use os_research_lab.Base.Fault.{
  Outcome, fault, reject, done, Ensures, >>=-Ensures, require-Ensures, ◌>>=◌,
}
use os_research_lab.Fs.{
  Status, ok, failed, max_files, max_filename_len, max_file_size, sys_list_files, sys_read_file,
}
use os_research_lab.Text.{Typed, read_line}
use os_research_lab.Text.Line.{ReadsAs, line_of, read_line_lem}
use os_research_lab.Isolation.{
  user_range, user_string, Call, print, poll, clear, paint, draw_text, terminal, wait, Kernel,
  Reply, returns, waits, asked, text_size, give_line, sys_readline, get_char, poll_char, give,
  list_files, read_file, write_file, delete_file, outside, sys_paint, sys_drawtext, dispatch,
  or_rejected, syscall,
}
use os_research_lab.Isolation.Range.{IsTables, may}
use os_research_lab.Isolation.Copies.{
  strlen_stops, copied-kept, checked, string_loop-reads, listed-fits, read-fits,
}

-- The reply leaves the byte at `x` as it was.
abbrev pub Keeps : Kernel → ℕ → Reply → Type 0
Keeps k x (returns s k') = k'.memory x ≡ k.memory x
Keeps k x waits = Unit {0}

module _ (pt : List (List ℕ)) (h : IsTables pt) (k : Kernel) (x : ℕ)
    (shut : may true pt x ≡ false) where
  -- A text of the process, and what follows.
  named :
      {A : Type 0} (P : A → Type 0) (source capacity : ℕ) (f : List ℕ → Outcome A)
      → ((s : List ℕ) → Ensures P (f s))
      → Ensures P (user_string (some pt) k.memory source capacity >>= f)
  named P source capacity f next =
      >>=-Ensures (λ (s : List ℕ). length s < capacity) P
        (user_string (some pt) k.memory source capacity) f
        (string_loop-reads capacity pt k.memory source 0 h) (λ s small. next s)

  give-Keeps :
      (a size : ℕ) (status : Status) (bytes : List ℕ)
      → user_range (some pt) a size true ≡ done true
      → length bytes ≤ size
      → Keeps k x (give k a status bytes)
  unfolding give
  give-Keeps a size (ok n) bytes passes fits =
      copied-kept pt k.memory a size x bytes h shut passes fits
  give-Keeps a size (failed n) bytes passes fits = refl

  give_line-Keeps :
      (a b n : ℕ) (l : Option (List ℕ × List ℕ)) (o : Outcome (Option Typed))
      → user_range (some pt) a b true ≡ done true
      → ReadsAs n b l o
      → Ensures (Keeps k x) (o >>= give_line k a)
  unfolding give_line
  give_line-Keeps a b n none o passes e = rw e tt
  give_line-Keeps a b n (some (line, rest)) o passes (t, e, ends, size, left, fits) =
      let (m, is, small) = strlen_stops line t.buf ends in
      rw (e, is)
        (copied-kept pt k.memory a b x (take (m + 1) t.buf) h shut passes
          (omega (arith, length-take (m + 1) t.buf)))

  sys_readline-Keeps : (a b : ℕ) → Ensures (Keeps k x) (sys_readline (some pt) k a b)
  unfolding sys_readline
  sys_readline-Keeps a b =
      let buf : List ℕ = replicate text_size 0 in
      let room : length buf ≡ text_size = length-replicate {A = ℕ} text_size 0 in
      require-Ensures (Keeps k x) (b != 0 && leb b text_size) _ (λ sized.
        checked (Keeps k x) pt a b true _ h (λ passes.
          give_line-Keeps a b (length buf) (line_of b [] k.keys) (read_line k.keys (some buf) b)
            passes (read_line_lem k.keys buf b (ground arith) (ground arith))))

  list_files-Keeps : (a b : ℕ) → Ensures (Keeps k x) (list_files (some pt) k a b)
  unfolding list_files
  list_files-Keeps a b =
      require-Ensures (Keeps k x) (b != 0 && leb b (max_files * (max_filename_len + 1))) _ (λ sized.
        checked (Keeps k x) pt a b true _ h (λ passes.
          give-Keeps a b (sys_list_files k.files b).0 ((sys_list_files k.files b).1 ++ 0 ∷ [])
            passes (listed-fits k.files b (ground arith))))

  read_file-Keeps : (a b c : ℕ) → Ensures (Keeps k x) (read_file (some pt) k a b c)
  unfolding read_file
  read_file-Keeps a b c = require-Ensures (Keeps k x) (leb c max_file_size) _ (λ sized.
      named (Keeps k x) a max_filename_len _ (λ name. checked (Keeps k x) pt b c true _ h (λ passes.
        give-Keeps b c (sys_read_file k.files (some name) c).0
          (sys_read_file k.files (some name) c).1 passes (read-fits k.files name c))))

  write_file-Keeps : (a b c : ℕ) → Ensures (Keeps k x) (write_file (some pt) k a b c)
  unfolding write_file
  write_file-Keeps a b c = require-Ensures (Keeps k x) (leb c max_file_size) _ (λ sized.
      named (Keeps k x) a max_filename_len _
        (λ name. checked (Keeps k x) pt b c false _ h (λ passes. refl)))

  delete_file-Keeps : (a : ℕ) → Ensures (Keeps k x) (delete_file (some pt) k a)
  unfolding delete_file
  delete_file-Keeps a = named (Keeps k x) a max_filename_len _ (λ name. refl)

  asked-Keeps : (c : Call) → Ensures (Keeps k x) (asked k c)
  asked-Keeps c = refl

  sys_paint-Keeps : (a b c d e : ℕ) → Ensures (Keeps k x) (sys_paint k a b c d e)
  unfolding sys_paint
  sys_paint-Keeps a b c d e =
      require-Ensures (Keeps k x)
        (not (outside a 320 || outside b 200 || ltb 640 c || ltb 400 d || ltb 9 e))
        (λ _. asked k (paint a b c d e)) (λ sized. asked-Keeps (paint a b c d e))

  sys_drawtext-Keeps : (a b c d : ℕ) → Ensures (Keeps k x) (sys_drawtext (some pt) k a b c d)
  unfolding sys_drawtext
  sys_drawtext-Keeps a b c d =
      require-Ensures (Keeps k x) (not (outside a 320 || lts64 b 0 || ltb 192 b || ltb 9 d)) _
        (λ sized.
          named (Keeps k x) c text_size (λ text. asked k (draw_text a b text d))
            (λ text. asked-Keeps (draw_text a b text d)))

  char-Keeps : (keys : List ℕ) → Keeps k x (get_char k keys) × Keeps k x (poll_char k keys)
  char-Keeps [] = (tt, refl)
  char-Keeps (c ∷ keys) = (refl, refl)

  dispatch-Keeps : (n a b c d e : ℕ) → Ensures (Keeps k x) (dispatch (some pt) k n a b c d e)
  unfolding dispatch
  dispatch-Keeps n a b c d e =
      let P = Ensures (Keeps k x) in
      if-P P (n == 1)
        (named (Keeps k x) a text_size (λ text. asked k (print text))
          (λ text. asked-Keeps (print text)))
        (if-P P (n == 2) (sys_readline-Keeps a b) (
          if-P P (n == 3) (char-Keeps k.keys).0 (
            if-P P (n == 4) (char-Keeps k.keys).1 (
              if-P P (n == 5) (asked-Keeps poll) (
                if-P P (n == 6) (asked-Keeps clear) (
                  if-P P (n == 7) (list_files-Keeps a b) (
                    if-P P (n == 8) (read_file-Keeps a b c) (
                      if-P P (n == 9) (write_file-Keeps a b c) (
                        if-P P (n == 10) (delete_file-Keeps a) (
                          if-P P (n == 11) (sys_paint-Keeps a b c d e) (
                            if-P P (n == 12) (sys_drawtext-Keeps a b c d) (
                              if-P P (n == 13)
                                (named (Keeps k x) a 38 (λ text. asked k (terminal text))
                                  (λ text. asked-Keeps (terminal text)))
                                (if-P P (n == 14)
                                  (require-Ensures (Keeps k x) (not ((a == 0) || ltb 1000 a))
                                    (λ _. asked k (wait a)) (λ sized. asked-Keeps (wait a)))
                                  (if-P P (n == 15) refl tt))))))))))))))

or_rejected-Keeps :
    (k : Kernel) (x : ℕ) (o : Outcome Reply)
    → Ensures (Keeps k x) o
    → Ensures (Keeps k x) (or_rejected k o)
or_rejected-Keeps k x fault h = h
or_rejected-Keeps k x reject h = refl
or_rejected-Keeps k x (done r) h = h

-- Under five full page tables, a system call with any number and any arguments looks at no entry
-- outside the tables, and leaves every byte where the process may not write itself as it was.
pub syscall-Keeps :
    (pt : List (List ℕ)) (k : Kernel) (x n a b c d e : ℕ)
    → IsTables pt
    → may true pt x ≡ false
    → Ensures (Keeps k x) (syscall (some pt) k n a b c d e)
unfolding syscall
syscall-Keeps pt k x n a b c d e h shut =
    or_rejected-Keeps k x (dispatch (some pt) k n a b c d e)
      (dispatch-Keeps pt h k x shut n a b c d e)
