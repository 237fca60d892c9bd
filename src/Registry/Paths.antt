-- ===== src/Registry/Paths.antt =====
-- The paths of src/pool.rs and src/registry.rs: `format!("{}/{}", public, key)`, the path of one member
-- of a set, and `strip_prefix` with the test on the key that is left.
use Prim.Native.Char.{Char, code}
use Prim.Native.String.{slice, len as bytes, ◌++◌ as ◌+++◌}
use text.Mathlib.Text.{starts_with}
use text.Mathlib.TextPositions.{starts_with-append, slice-append_right, len-append}
use text.Mathlib.TextLemmas.{
  nil-append, cons-append, append_assoc as text_append_assoc, append_cancel_left,
  head-eq_of_cons-eq, tail-eq_of_cons-eq,
}
use trouper.Prelude.{
  String, ◌≡◌, refl, sym, ap, ◌∙◌, ◌≢◌, Bool, true, false, not, ◌&&◌, ◌||◌, Option, none, some,
  arith, ◌==◌, if◌then◌else◌,
}

-- `str::strip_prefix`
abbrev pub strip_prefix : String → String → Option String
strip_prefix s t = if starts_with s t then some (slice s (bytes t) (bytes s)) else none

-- `key.contains('/')`
abbrev pub has_slash : String → Bool
has_slash String.[] = false
has_slash (String.◌∷◌ c s) = code c == 47 || has_slash s

-- `key.is_empty()`
abbrev pub is_empty_text : String → Bool
is_empty_text String.[] = true
is_empty_text (String.◌∷◌ c s) = false

unfoldable pub member_path : String → String → String
member_path public key = public +++ ("/" +++ key)

unfoldable pub is_member_key : String → Bool
is_member_key key = not (is_empty_text key) && not (has_slash key)

-- Whether the set with this public path owns the path.
unfoldable pub owns : String → String → Bool
unfolding is_member_key
owns public p = elim (strip_prefix p (public +++ "/")) [
  | none ↦ false
  | some key ↦ is_member_key key
]

pub strip_prefix-append_left : (t u : String) → strip_prefix (t +++ u) t ≡ some u
strip_prefix-append_left t u =
    rw (starts_with-append t u, len-append t u, slice-append_right t u) refl

pub strip-member_path :
    (public key : String) → strip_prefix (member_path public key) (public +++ "/") ≡ some key
unfolding member_path
strip-member_path public key =
    rw (sym (text_append_assoc public "/" key)) (strip_prefix-append_left (public +++ "/") key)

-- A set owns the paths of its keys that are not empty and have no slash, and of no others.
pub owns-member_path :
    (public key : String) → owns public (member_path public key) ≡ is_member_key key
unfolding owns
owns-member_path public key = rw (owns, strip-member_path public key) refl

pub member_path-inj :
    (public : String) {j k : String} → member_path public j ≡ member_path public k → j ≡ k
unfolding member_path
member_path-inj public {j} {k} e =
    append_cancel_left "/" j k (append_cancel_left public ("/" +++ j) ("/" +++ k) e)

has_slash-append_slash : (s t : String) → has_slash (s +++ ("/" +++ t)) ≡ true
has_slash-append_slash String.[] t = rw (nil-append ("/" +++ t), cons-append "/" "" t) refl
has_slash-append_slash (String.◌∷◌ c s) t =
    rw (cons-append c s ("/" +++ t)) (ground (arith, has_slash-append_slash s t))

-- A text behind a slash is not a text that starts with something else and has a slash further on.
slash_first :
    (d : Char) (q j k : String)
    → has_slash j ≡ false
    → ◌≢◌ {A = String} ("" +++ ("/" +++ j)) (String.◌∷◌ d q +++ ("/" +++ k))
slash_first d q j k hj e =
    let t =
      tail-eq_of_cons-eq
        (sym (nil-append ("/" +++ j) ∙ cons-append "/" "" j) ∙ e ∙ cons-append d q ("/" +++ k)) in
    let h = ap has_slash (sym (nil-append j) ∙ t) ∙ has_slash-append_slash q k in cc

-- Two sets never share the path of a key without a slash.
pub member_path-inj_public :
    (p q j k : String)
    → has_slash j ≡ false
    → has_slash k ≡ false
    → member_path p j ≡ member_path q k
    → p ≡ q
unfolding member_path
member_path-inj_public String.[] String.[] j k hj hk e = refl
member_path-inj_public String.[] (String.◌∷◌ d q) j k hj hk e = absurd (slash_first d q j k hj e)
member_path-inj_public (String.◌∷◌ c p) String.[] j k hj hk e =
    absurd (slash_first c p k j hk (sym e))
member_path-inj_public (String.◌∷◌ c p) (String.◌∷◌ d q) j k hj hk e =
    let e' = sym (cons-append c p ("/" +++ j)) ∙ e ∙ cons-append d q ("/" +++ k) in
    let ih = member_path-inj_public p q j k hj hk (tail-eq_of_cons-eq e') in
    let h = head-eq_of_cons-eq e' in cc
