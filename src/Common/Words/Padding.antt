-- ===== src/Common/Words/Padding.antt =====
-- `strip` under padding and under `lower`.
use nova_project_bible.Common.Tests.{Bool-cases}
use nova_project_bible.Common.Lists.{All}
use nova_project_bible.Common.Words.{Text, strip, drop_spaces, is_space, lower, lower_char}
use Prim.Native.Nat.{ℕ}
use mathlib.Core.Path.{◌≡◌, refl, sym, ap}
use mathlib.Core.Logic.{inl, inr}
use mathlib.Core.Bool.{true}
use mathlib.Core.List.{[], ◌∷◌, ◌++◌, reverse, reverse-append, reverse-cons}
use native.Mathlib.Omega.{arith}

-- A character that `strip` removes.
abbrev pub IsSpace : ℕ → Type 0
IsSpace c = is_space c ≡ true

-- The two halves of `strip`.
abbrev strip_end : Text → Text
strip_end cs = reverse (drop_spaces (reverse cs))

drop_spaces-pad : (a w : Text) → All IsSpace a → drop_spaces (a ++ w) ≡ drop_spaces w
unfolding drop_spaces
drop_spaces-pad [] w h = refl
drop_spaces-pad (c ∷ a) w (space, h) = rw space (drop_spaces-pad a w h)

All-append : (a b : Text) → All IsSpace a → All IsSpace b → All IsSpace (a ++ b)
All-append [] b h k = k
All-append (c ∷ a) b (space, h) k = (space, All-append a b h k)

All-reverse : (a : Text) → All IsSpace a → All IsSpace (reverse a)
All-reverse [] h = tt
All-reverse (c ∷ a) (space, h) =
    rw (reverse-cons c a) (All-append (reverse a) (c ∷ []) (All-reverse a h) (space, tt))

strip_end-pad : (w b : Text) → All IsSpace b → strip_end (w ++ b) ≡ strip_end w
strip_end-pad w b h =
    rw (reverse-append w b, drop_spaces-pad (reverse b) (reverse w) (All-reverse b h)) refl

drop_spaces-blank : (b : Text) → All IsSpace b → drop_spaces b ≡ []
unfolding drop_spaces
drop_spaces-blank [] h = refl
drop_spaces-blank (c ∷ b) (space, h) = rw space (drop_spaces-blank b h)

strip_end-drop_spaces :
    (w b : Text) → All IsSpace b → strip_end (drop_spaces (w ++ b)) ≡ strip_end (drop_spaces w)
unfolding drop_spaces
strip_end-drop_spaces [] b h = rw (drop_spaces-blank b h) refl
strip_end-drop_spaces (c ∷ w) b h = elim (Bool-cases (is_space c)) [
  | inl e ↦ rw e (strip_end-drop_spaces w b h)
  | inr e ↦ rw e (strip_end-pad (c ∷ w) b h)
]

pub strip-pad : (a w b : Text) → All IsSpace a → All IsSpace b → strip (a ++ (w ++ b)) ≡ strip w
unfolding strip
strip-pad a w b h k = rw (drop_spaces-pad a (w ++ b) h) (strip_end-drop_spaces w b k)

is_space-lower : (c : ℕ) → is_space (lower_char c) ≡ is_space c
unfolding is_space lower_char
is_space-lower c = ground arith

drop_spaces-lower : (w : Text) → drop_spaces (lower w) ≡ lower (drop_spaces w)
unfolding drop_spaces lower
drop_spaces-lower [] = refl
drop_spaces-lower (c ∷ w) = elim (Bool-cases (is_space c)) [
  | inl e ↦ rw (is_space-lower c, e) (drop_spaces-lower w)
  | inr e ↦ rw (is_space-lower c, e) refl
]

lower-append : (v w : Text) → lower (v ++ w) ≡ lower v ++ lower w
unfolding lower
lower-append [] w = refl
lower-append (c ∷ v) w = ap (λ t. lower_char c ∷ t) (lower-append v w)

lower-reverse : (w : Text) → lower (reverse w) ≡ reverse (lower w)
unfolding lower
lower-reverse [] = refl
lower-reverse (c ∷ w) =
    rw
      (
        reverse-cons c w,
        reverse-cons (lower_char c) (lower w),
        lower-append (reverse w) (c ∷ []),
        lower-reverse w,
      )
      refl

-- `s.strip().lower() == s.lower().strip()`
pub strip-lower : (w : Text) → strip (lower w) ≡ lower (strip w)
unfolding strip
strip-lower w =
    rw
      (
        drop_spaces-lower w,
        sym (lower-reverse (drop_spaces w)),
        drop_spaces-lower (reverse (drop_spaces w)),
        lower-reverse (drop_spaces (reverse (drop_spaces w))),
      )
      refl
