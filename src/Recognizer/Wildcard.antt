-- ===== src/Recognizer/Wildcard.antt =====
-- tsukuyomi/src/app/recognizer.rs: the helpers on byte slices at the end of the file.
use tsukuyomi.Prelude.{
  ℕ, zero, suc, ◌+◌, Bool, true, false, not, none, some, [], ◌∷◌, ◌&&◌, ◌||◌, Bytes, ◌==◌, ltb,
  length, get_elem?, position, drop, if◌then◌else◌, Result, ok, err,
}
use tsukuyomi.Recognizer.Tree.{
  InsertError, not_next_of_slash, wrong_wildcard, empty_name, catch_all_not_at_end, panic,
}

-- The position of the first difference, or the smaller length.
unfoldable pub longest_common_prefix : Bytes → Bytes → ℕ
longest_common_prefix (a ∷ s) (b ∷ t) = if a == b then suc (longest_common_prefix s t) else 0
longest_common_prefix _ _ = 0

abbrev pub is_wildcard : ℕ → Bool
is_wildcard c = c == b':' || c == b'*'

unfoldable pub find_wildcard_begin : Bytes → ℕ → ℕ
find_wildcard_begin path offset = elim (position is_wildcard (drop offset path)) [
  | none ↦ length path
  | some i ↦ i + offset
]

-- The test `offset > 0 && path[offset - 1] != b'/'`.
unfoldable pub follows_slash : Bytes → ℕ → Bool
follows_slash path zero = true
follows_slash path (suc i) = elim (get_elem? path i) [ none ↦ false | some c ↦ c == b'/' ]

-- The `while` loop: the bytes of the name from `offset + end` on, and `end` in the result.
unfoldable pub name_end : Bytes → ℕ → Result InsertError ℕ
name_end [] end = ok end
name_end (c ∷ s) end =
    let rest = name_end s (end + 1) in
    if c == b'/' then ok end else if is_wildcard c then err wrong_wildcard else rest

-- The checks after the loop.
unfoldable pub checked_end : Bytes → ℕ → ℕ → ℕ → Result InsertError ℕ
checked_end path offset kind end =
    if end == 1
    then err empty_name
    else if kind == b'*' && ltb (offset + end) (length path)
    then err catch_all_not_at_end
    else ok (offset + end)

-- Behind the assertion that a wildcard stands at the offset, which a build with debug assertions
-- checks, and which indexes the path.
unfoldable pub find_wildcard_end : Bytes → ℕ → Result InsertError ℕ
unfolding follows_slash name_end checked_end
find_wildcard_end path offset = elim (get_elem? path offset) [
  | none ↦ err panic
  | some kind ↦
      if not (is_wildcard kind)
      then err panic
      else if not (follows_slash path offset)
      then err not_next_of_slash
      else elim (name_end (drop (offset + 1) path) 1) [
        | err e ↦ err e
        | ok end ↦ checked_end path offset kind end
      ]
]
