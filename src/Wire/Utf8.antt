-- ===== src/Wire/Utf8.antt =====
-- `String::from_utf8`: the check of Rust's standard library that bytes are UTF-8 text.
use round_robin.Common.{
  ℕ, ◌≡◌, refl, Bool, true, false, ◌&&◌, Option, none, some, List, [], ◌∷◌, leb, ltb, ◌==◌,
  if◌then◌else◌,
}

-- The ranges that must follow a leading byte.
followers : ℕ → Option (List (ℕ × ℕ))
followers b =
    if ltb b 0x80
    then some []
    else if leb 0xc2 b && leb b 0xdf
    then some ((0x80, 0xbf) ∷ [])
    else if b == 0xe0
    then some ((0xa0, 0xbf) ∷ (0x80, 0xbf) ∷ [])
    else if b == 0xed
    then some ((0x80, 0x9f) ∷ (0x80, 0xbf) ∷ [])
    else if leb 0xe1 b && leb b 0xef
    then some ((0x80, 0xbf) ∷ (0x80, 0xbf) ∷ [])
    else if b == 0xf0
    then some ((0x90, 0xbf) ∷ (0x80, 0xbf) ∷ (0x80, 0xbf) ∷ [])
    else if leb 0xf1 b && leb b 0xf3
    then some ((0x80, 0xbf) ∷ (0x80, 0xbf) ∷ (0x80, 0xbf) ∷ [])
    else if b == 0xf4
    then some ((0x80, 0x8f) ∷ (0x80, 0xbf) ∷ (0x80, 0xbf) ∷ [])
    else none

utf8_from : List (ℕ × ℕ) → List ℕ → Bool
unfolding followers
utf8_from [] [] = true
utf8_from [] (b ∷ bs) = elim (followers b) [ none ↦ false | some ranges ↦ utf8_from ranges bs ]
utf8_from (r ∷ ranges) [] = false
utf8_from ((lo, hi) ∷ ranges) (b ∷ bs) = leb lo b && leb b hi && utf8_from ranges bs

unfoldable pub is_utf8 : List ℕ → Bool
unfolding utf8_from
is_utf8 bytes = utf8_from [] bytes

-- "é€" is text, and a stray continuation byte, an overlong form and a surrogate are not.
is_utf8_accepts : is_utf8 (0x41 ∷ 0xc3 ∷ 0xa9 ∷ 0xe2 ∷ 0x82 ∷ 0xac ∷ []) ≡ true
unfolding is_utf8
is_utf8_accepts = refl

is_utf8_rejects : is_utf8 (0xc0 ∷ 0x80 ∷ []) ≡ false
unfolding is_utf8
is_utf8_rejects = refl
