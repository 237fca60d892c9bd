-- ===== src/Registry/Sets/Owned.antt =====
-- Which paths `projector_set_owning` of src/registry.rs takes for members of a set.
use Prim.Native.String.{◌++◌ as ◌+++◌}
use text.Mathlib.Text.{starts_with}
use text.Mathlib.TextLemmas.{append_assoc as text_append_assoc}
use text.Mathlib.TextEquality.{starts_with_iff}
use trouper.Prelude.{
  String, ◌≡◌, refl, sym, ap, ◌∙◌, ◌≢◌, inl, inr, true, false, none, some, List, [], ◌∷◌, map,
  arith, eq_iff, Bool-cases, Option-cases, some-inj, some≢none, contains,
}
use trouper.Journal.{ActorPath}
use trouper.Registry.Paths.{
  owns, member_path, is_member_key, strip_prefix, strip_prefix-append_left, has_slash,
  owns-member_path, member_path-inj_public,
}
use trouper.Registry.Sets.{ProjectorSetSpec, projector_set_owning}

-- A path that starts with a set's prefix is the prefix and the rest.
strip_prefix-append : (s t u : String) → strip_prefix s t ≡ some u → t +++ u ≡ s
strip_prefix-append s t u h = elim (Bool-cases (starts_with s t)) [
  | inl g ↦
      let (v, e) = (starts_with_iff s t).0 g in
      let k = ap (λ x. strip_prefix x t) e in
      let l = strip_prefix-append_left t v in
      let m = some-inj (sym h ∙ sym k ∙ l) in ap (λ x. t +++ x) m ∙ e
  | inr g ↦ absurd (some≢none (sym h ∙ rw (g) refl))
]

owns-at :
    (public p key : String)
    → strip_prefix p (public +++ "/") ≡ some key
    → owns public p ≡ is_member_key key
unfolding owns
owns-at public p key e = rw (owns, e) refl

owns-at_none : (public p : String) → strip_prefix p (public +++ "/") ≡ none → owns public p ≢ true
unfolding owns
owns-at_none public p e = rw (owns, e) (ground arith)

-- What a set owns is the path of one of its keys.
pub owns-member :
    (public p : String)
    → owns public p ≡ true
    → (key : String) × (p ≡ member_path public key) × (is_member_key key ≡ true)
unfolding member_path
owns-member public p h = elim (Option-cases (strip_prefix p (public +++ "/"))) [
  | inl e ↦ absurd (owns-at_none public p e h)
  | inr (key, e) ↦ (
    key,
    sym (strip_prefix-append p (public +++ "/") key e) ∙ text_append_assoc public "/" key,
    sym (owns-at public p key e) ∙ h,
  )
]

pub is_member_key-no_slash : (key : String) → is_member_key key ≡ true → has_slash key ≡ false
unfolding is_member_key
is_member_key-no_slash key h = ground arith

-- The path of a key without a slash is owned by its own set only.
pub owns-public :
    (q p key : String) → is_member_key key ≡ true → owns q (member_path p key) ≡ true → q ≡ p
owns-public q p key k h =
    let (j, e, kj) = owns-member q (member_path p key) h in
    sym (
      member_path-inj_public p q key j (is_member_key-no_slash key k) (is_member_key-no_slash j kj)
        e)

-- The member of an installed set, at a key that is not empty and has no slash, is owned by that set.
pub projector_set_owning-public :
    (sets : List ProjectorSetSpec) (p : ActorPath) (key : String)
    → contains (map (λ (s : ProjectorSetSpec). s.public) sets) p ≡ true
    → is_member_key key ≡ true
    → (spec : ProjectorSetSpec) × (projector_set_owning (member_path p key) sets ≡ some spec)
      × (spec.public ≡ p)
unfolding projector_set_owning
projector_set_owning-public [] p key h k = ground arith
projector_set_owning-public (x ∷ xs) p key h k =
    elim (Bool-cases (owns x.public (member_path p key))) [
      | inl e ↦ (x, rw (e) refl, owns-public x.public p key k e)
      | inr e ↦
          let rest =
            projector_set_owning-public xs p key
              (ground (arith, h, e, k, eq_iff x.public p, owns-member_path p key)) k in
          (rest.0, rw (e) rest.1, rest.2)
    ]
