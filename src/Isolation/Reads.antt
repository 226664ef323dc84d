-- ===== src/Isolation/Reads.antt =====
-- jordyOS/isolation.c: the bytes of the process on which a system call depends.
use os_research_lab.Base.{
  ℕ, ◌+◌, ◌*◌, List, [], ◌∷◌, ◌++◌, Option, some, none, true, false, not, ◌&&◌, ◌||◌, leb, ltb,
  ◌==◌, ◌!=◌, replicate, ◌≡◌, refl, lts64,
}
use os_research_lab.Base.Fault.{Outcome, fault, reject, done, Ensures, require, ◌>>=◌}
use os_research_lab.Fs.{
  Status, ok, failed, max_files, max_filename_len, max_file_size, sys_list_files, sys_read_file,
}
use os_research_lab.Text.{Typed, read_line, strlen}
use os_research_lab.Isolation.{
  string_loop, user_string, Call, print, poll, clear, paint, draw_text, terminal, wait, Kernel,
  Reply, asked, text_size, give_line, sys_readline, get_char, poll_char, give, list_files,
  read_file, write_file, delete_file, outside, sys_paint, sys_drawtext, dispatch, or_rejected,
  syscall,
}
use os_research_lab.Isolation.Calls.{Keeps, syscall-Keeps}
use os_research_lab.Isolation.Range.{IsTables, may, user_range-may}
use os_research_lab.Isolation.Same.{
  Agree, SameReply, SameOutcome, if-both, bind-Same, range-Same, copied-Agree, string_loop-same,
  bytes_at-same,
}

module _ (pt : List (List ℕ)) (h : IsTables pt) (k : Kernel) (memory' : ℕ → ℕ)
    (same : Agree pt k.memory memory') where
  -- The same kernel with the other bytes.
  abbrev other : Kernel
  other = record k { memory = memory' }

  asked-Same : (c : Call) → SameOutcome pt (asked k c) (asked other c)
  asked-Same c = (refl, (refl, refl, refl, refl, refl, same))

  named-Same :
      (source capacity : ℕ) (f f' : List ℕ → Outcome Reply)
      → ((s : List ℕ) → SameOutcome pt (f s) (f' s))
      → SameOutcome pt
          (user_string (some pt) k.memory source capacity >>= f)
          (user_string (some pt) memory' source capacity >>= f')
  named-Same source capacity f f' next =
      rw (string_loop-same pt capacity k.memory memory' source 0 h same)
        (bind-Same pt (string_loop capacity (some pt) memory' source 0) f f' next)

  give-Same :
      (a : ℕ) (status : Status) (bytes : List ℕ)
      → SameReply pt (give k a status bytes) (give other a status bytes)
  unfolding give
  give-Same a (ok n) bytes =
      (refl, (refl, refl, refl, refl, refl, copied-Agree pt k.memory memory' a bytes same))
  give-Same a (failed n) bytes = (refl, (refl, refl, refl, refl, refl, same))

  give_line-Same :
      (a : ℕ) (line : Option Typed) → SameOutcome pt (give_line k a line) (give_line other a line)
  unfolding give_line
  give_line-Same a none = tt
  give_line-Same a (some t) =
      bind-Same pt (strlen t.buf) _ _
        λ n. (refl, (refl, refl, refl, refl, refl, copied-Agree pt k.memory memory' a _ same))

  sys_readline-Same :
      (a b : ℕ) → SameOutcome pt (sys_readline (some pt) k a b) (sys_readline (some pt) other a b)
  unfolding sys_readline
  sys_readline-Same a b = bind-Same pt (require (b != 0 && leb b text_size)) _ _ λ sized.
      range-Same pt a b true _ _ h λ passes.
        bind-Same pt (read_line k.keys (some (replicate text_size 0)) b) _ _ (give_line-Same a)

  list_files-Same :
      (a b : ℕ) → SameOutcome pt (list_files (some pt) k a b) (list_files (some pt) other a b)
  unfolding list_files
  list_files-Same a b =
      bind-Same pt (require (b != 0 && leb b (max_files * (max_filename_len + 1)))) _ _ λ sized.
        range-Same pt a b true _ _ h λ passes.
          give-Same a (sys_list_files k.files b).0 ((sys_list_files k.files b).1 ++ 0 ∷ [])

  read_file-Same :
      (a b c : ℕ) → SameOutcome pt (read_file (some pt) k a b c) (read_file (some pt) other a b c)
  unfolding read_file
  read_file-Same a b c = bind-Same pt (require (leb c max_file_size)) _ _ λ sized.
      named-Same a max_filename_len _ _ λ name. range-Same pt b c true _ _ h λ passes.
        give-Same b (sys_read_file k.files (some name) c).0 (sys_read_file k.files (some name) c).1

  write_file-Same :
      (a b c : ℕ) → SameOutcome pt (write_file (some pt) k a b c) (write_file (some pt) other a b c)
  unfolding write_file
  write_file-Same a b c = bind-Same pt (require (leb c max_file_size)) _ _ λ sized.
      named-Same a max_filename_len _ _ λ name. range-Same pt b c false _ _ h λ passes.
        rw
          (bytes_at-same pt k.memory memory' b c
            (λ x from to. same x (user_range-may pt b c x false h passes from to)))
          (refl, (refl, refl, refl, refl, refl, same))

  delete_file-Same :
      (a : ℕ) → SameOutcome pt (delete_file (some pt) k a) (delete_file (some pt) other a)
  unfolding delete_file
  delete_file-Same a =
      named-Same a max_filename_len _ _ λ name. (refl, (refl, refl, refl, refl, refl, same))

  sys_paint-Same :
      (a b c d e : ℕ) → SameOutcome pt (sys_paint k a b c d e) (sys_paint other a b c d e)
  unfolding sys_paint
  sys_paint-Same a b c d e =
      bind-Same pt
        (require (not (outside a 320 || outside b 200 || ltb 640 c || ltb 400 d || ltb 9 e))) _ _
        λ sized. asked-Same (paint a b c d e)

  sys_drawtext-Same :
      (a b c d : ℕ)
      → SameOutcome pt (sys_drawtext (some pt) k a b c d) (sys_drawtext (some pt) other a b c d)
  unfolding sys_drawtext
  sys_drawtext-Same a b c d =
      bind-Same pt (require (not (outside a 320 || lts64 b 0 || ltb 192 b || ltb 9 d))) _ _
        λ sized. named-Same c text_size _ _ λ text. asked-Same (draw_text a b text d)

  char-Same :
      (keys : List ℕ)
      → SameReply pt (get_char k keys) (get_char other keys)
        × SameReply pt (poll_char k keys) (poll_char other keys)
  char-Same [] = (tt, (refl, (refl, refl, refl, refl, refl, same)))
  char-Same (c ∷ keys) =
      ((refl, (refl, refl, refl, refl, refl, same)), (refl, (refl, refl, refl, refl, refl, same)))

  dispatch-Same :
      (n a b c d e : ℕ)
      → SameOutcome pt (dispatch (some pt) k n a b c d e) (dispatch (some pt) other n a b c d e)
  unfolding dispatch
  dispatch-Same n a b c d e =
      let R = SameOutcome pt in
      if-both R (n == 1) (named-Same a text_size _ _ λ text. asked-Same (print text)) (
        if-both R (n == 2) (sys_readline-Same a b) (
          if-both R (n == 3) (char-Same k.keys).0 (
            if-both R (n == 4) (char-Same k.keys).1 (
              if-both R (n == 5) (asked-Same poll) (
                if-both R (n == 6) (asked-Same clear) (
                  if-both R (n == 7) (list_files-Same a b) (
                    if-both R (n == 8) (read_file-Same a b c) (
                      if-both R (n == 9) (write_file-Same a b c) (
                        if-both R (n == 10) (delete_file-Same a) (
                          if-both R (n == 11) (sys_paint-Same a b c d e) (
                            if-both R (n == 12) (sys_drawtext-Same a b c d) (
                              if-both R (n == 13)
                                (named-Same a 38 _ _ λ text. asked-Same (terminal text))
                                (if-both R (n == 14)
                                  (bind-Same pt (require (not ((a == 0) || ltb 1000 a))) _ _
                                    λ sized. asked-Same (wait a))
                                  (if-both R (n == 15) {y = reject} {y' = reject}
                                    (refl, (refl, refl, refl, refl, refl, same)) tt))))))))))))))

  or_rejected-Same :
      (o o' : Outcome Reply)
      → SameOutcome pt o o'
      → SameOutcome pt (or_rejected k o) (or_rejected other o')
  or_rejected-Same fault fault s = s
  or_rejected-Same fault reject s = s
  or_rejected-Same fault (done r) s = s
  or_rejected-Same reject fault s = s
  or_rejected-Same reject reject s = (refl, (refl, refl, refl, refl, refl, same))
  or_rejected-Same reject (done r) s = absurd s
  or_rejected-Same (done r) fault s = s
  or_rejected-Same (done r) reject s = absurd s
  or_rejected-Same (done r) (done r') s = s

-- Under five full page tables, bytes at addresses that the process may not read make no difference to a
-- system call with any number and any arguments: with other bytes there it ends in the same way,
-- with the same status, files, console and calls of the devices, and leaves the same bytes wherever
-- the process may read.
syscall-SameOutcome :
    (pt : List (List ℕ)) (k : Kernel) (memory' : ℕ → ℕ) (n a b c d e : ℕ)
    → IsTables pt
    → Agree pt k.memory memory'
    → SameOutcome pt
        (syscall (some pt) k n a b c d e)
        (syscall (some pt) (record k { memory = memory' }) n a b c d e)
unfolding syscall
syscall-SameOutcome pt k memory' n a b c d e h same =
    or_rejected-Same pt h k memory' same (dispatch (some pt) k n a b c d e)
      (dispatch (some pt) (record k { memory = memory' }) n a b c d e)
      (dispatch-Same pt h k memory' same n a b c d e)

-- Under five full page tables, a system call with any number and any arguments looks at no entry outside
-- the tables; it leaves every byte where the process may not write itself as it was; and bytes that
-- the process may not read make no difference to it: with other bytes there it ends in the same way,
-- with the same status, files, console and calls of the devices, and the same bytes wherever the
-- process may read.
pub syscall_lem :
    (pt : List (List ℕ)) (k : Kernel) (memory' : ℕ → ℕ) (x n a b c d e : ℕ)
    → IsTables pt
    → may true pt x ≡ false
    → Agree pt k.memory memory'
    → Ensures (Keeps k x) (syscall (some pt) k n a b c d e)
      × SameOutcome pt
          (syscall (some pt) k n a b c d e)
          (syscall (some pt) (record k { memory = memory' }) n a b c d e)
syscall_lem pt k memory' x n a b c d e h shut same =
    (syscall-Keeps pt k x n a b c d e h shut, syscall-SameOutcome pt k memory' n a b c d e h same)
