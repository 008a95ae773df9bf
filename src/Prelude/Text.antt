-- ===== src/Prelude/Text.antt =====
-- Python's `str.strip`, `str.lstrip` with one character, `str.startswith` and slicing off a prefix,
-- on texts as sequences of characters.
use Prim.Native.Nat.{ℕ, zero, suc}
use Prim.Native.Char.{Char, code}
use Prim.Native.String.{String}
use mathlib.Core.Path.{◌≡◌, refl}
use mathlib.Core.Logic.{inl, inr}
use mathlib.Core.Bool.{Bool, true, false, ◌&&◌, ◌||◌}
use mathlib.Core.Option.{Option, none, some}
use weather_agent.Prelude.Tests.{leb, ◌==◌, if◌then◌else◌, is_some, Bool-cases}
use native.Mathlib.Omega.{arith}

-- The characters for which `str.isspace` is true.
abbrev pub is_space : Char → Bool
is_space c =
    let n = code c in
    (leb 9 n && leb n 13)
    || (leb 28 n && leb n 32)
    || n == 133
    || n == 160
    || n == 5760
    || (leb 8192 n && leb n 8202)
    || n == 8232
    || n == 8233
    || n == 8239
    || n == 8287
    || n == 12288

abbrev pub is_empty : String → Bool
is_empty String.[] = true
is_empty (String.◌∷◌ c s) = false

unfoldable pub lstrip : String → String
lstrip String.[] = String.[]
lstrip (String.◌∷◌ c s) = let rest = lstrip s in if is_space c then rest else String.◌∷◌ c s

unfoldable pub rstrip : String → String
rstrip String.[] = String.[]
rstrip (String.◌∷◌ c s) =
    let rest = rstrip s in if is_empty rest && is_space c then String.[] else String.◌∷◌ c rest

unfoldable pub strip : String → String
unfolding lstrip rstrip
strip s = rstrip (lstrip s)

-- What follows the prefix, if the text begins with it.
unfoldable pub after_prefix : String → String → Option String
after_prefix String.[] s = some s
after_prefix (String.◌∷◌ p ps) String.[] = none
after_prefix (String.◌∷◌ p ps) (String.◌∷◌ c s) =
    let rest = after_prefix ps s in if code p == code c then rest else none

-- `text[n:]`
unfoldable pub drop_text : ℕ → String → String
drop_text zero s = s
drop_text (suc n) String.[] = String.[]
drop_text (suc n) (String.◌∷◌ c s) = drop_text n s

-- `len(text)`, in characters.
unfoldable pub text_length : String → ℕ
text_length String.[] = 0
text_length (String.◌∷◌ c s) = suc (text_length s)

unfoldable pub starts_with : String → String → Bool
unfolding after_prefix
starts_with s p = is_some (after_prefix p s)

-- `short_id.lstrip("#")`
unfoldable pub lstrip_hash : String → String
lstrip_hash String.[] = String.[]
lstrip_hash (String.◌∷◌ c s) =
    let rest = lstrip_hash s in if code c == b'#' then rest else String.◌∷◌ c s

-- What follows a prefix is what is left when the prefix's characters are dropped.
pub after_prefix-drop_text :
    (p s : String) → starts_with s p ≡ true → after_prefix p s ≡ some (drop_text (text_length p) s)
unfolding starts_with after_prefix drop_text text_length
after_prefix-drop_text String.[] s h = refl
after_prefix-drop_text (String.◌∷◌ p ps) String.[] h = cc
after_prefix-drop_text (String.◌∷◌ p ps) (String.◌∷◌ c s) h = elim (Bool-cases (code p == code c)) [
  | inl e ↦ rw e (after_prefix-drop_text ps s (rw e at h))
  | inr e ↦ cc (rw e at h)
]

pub after_prefix-none : (p s : String) → starts_with s p ≡ false → after_prefix p s ≡ none
unfolding starts_with
after_prefix-none p s h = ground arith

strip_both : strip "  a b \n" ≡ "a b"
unfolding strip
strip_both = refl
