-- ===== src/Registry/Slots.antt =====
-- The slots of src/registry.rs: which paths are registered, under which manifest, and with which
-- endpoint. The hash map is a function; an endpoint is any type. Reports carry no more than their
-- error.
use trouper.Prelude.{
  ◌≡◌, refl, sym, ◌∙◌, inl, inr, Bool, true, false, Option, none, some, str_eq, if◌then◌else◌,
  Option-cases, contains, some≢none,
}
use trouper.Journal.{ActorPath, SchemaId}
use trouper.Schema.{ActorManifest, declared_once}
use trouper.Inbox.{OverloadPolicy, drop_new}

pub data RegistryError : Type 0 where
  path_taken unknown_path : ActorPath → RegistryError
  invalid_spec : RegistryError

pub data Answer {ℓ} (A : Type ℓ) : Type ℓ where
  done : A → Answer A
  failed : RegistryError → Answer A

-- A registered actor: `endpoint` is `none` between restarts.
pub record Slot {ℓ} (E : Type ℓ) : Type ℓ where
  pub manifest : ActorManifest
  pub endpoint : Option E
  pub inbox_policy : OverloadPolicy

abbrev pub Slots {ℓ} : Type ℓ → Type ℓ
Slots E = ActorPath → Option (Slot E)

module _ {ℓ} {E : Type ℓ} where
  abbrev pub set_slot : ActorPath → Option (Slot E) → Slots E → Slots E
  set_slot path slot slots = λ p. if str_eq p path then slot else slots p

  unfoldable pub insert_slot :
      ActorPath → ActorManifest → E → OverloadPolicy → Slots E → Answer (Slots E)
  insert_slot path manifest endpoint policy slots = elim (slots path) [
    | none ↦ done (
        set_slot path
          (some (record { manifest = manifest; endpoint = some endpoint; inbox_policy = policy }))
          slots)
    | some slot ↦ failed (path_taken path)
  ]

  unfoldable pub swap_endpoint : ActorPath → E → Slots E → Answer (Slots E)
  swap_endpoint path endpoint slots = elim (slots path) [
    | none ↦ failed (unknown_path path)
    | some slot ↦ done (set_slot path (some (record slot { endpoint = some endpoint })) slots)
  ]

  unfoldable pub remove_slot : ActorPath → Slots E → Answer (Slots E × ActorManifest)
  remove_slot path slots = elim (slots path) [
    | none ↦ failed (unknown_path path)
    | some slot ↦ done (set_slot path none slots, slot.manifest)
  ]

  unfoldable pub declare_emits : ActorPath → SchemaId → Slots E → Answer (Slots E)
  unfolding declared_once
  declare_emits path schema slots = elim (slots path) [
    | none ↦ failed (unknown_path path)
    | some slot ↦ done (
        set_slot path
          (some (record slot {
            manifest = record slot.manifest { emits = declared_once schema slot.manifest.emits };
          }))
          slots)
  ]

  abbrev pub endpoint_in : Option (Slot E) → Option E
  endpoint_in none = none
  endpoint_in (some slot) = slot.endpoint

  unfoldable pub resolve : ActorPath → Slots E → Option E
  resolve path slots = endpoint_in (slots path)

  -- `lookup` and `is_registered`, of which only whether there is a slot is read here.
  abbrev pub is_some_slot : Option (Slot E) → Bool
  is_some_slot none = false
  is_some_slot (some slot) = true

  unfoldable pub is_registered : ActorPath → Slots E → Bool
  is_registered path slots = is_some_slot (slots path)

  abbrev pub emit_in : SchemaId → Option (Slot E) → Bool
  emit_in schema none = false
  emit_in schema (some slot) = contains slot.manifest.emits schema

  unfoldable pub declares_emit : ActorPath → SchemaId → Slots E → Bool
  declares_emit path schema slots = emit_in schema (slots path)

  abbrev pub policy_in : Option (Slot E) → OverloadPolicy
  policy_in none = drop_new
  policy_in (some slot) = slot.inbox_policy

  unfoldable pub inbox_policy : ActorPath → Slots E → OverloadPolicy
  inbox_policy path slots = policy_in (slots path)

  pub resolved-is_registered :
      (path : ActorPath) (slots : Slots E) (endpoint : E)
      → resolve path slots ≡ some endpoint
      → is_registered path slots ≡ true
  unfolding resolve is_registered
  resolved-is_registered path slots endpoint r = elim (Option-cases (slots path)) [
    | inl g ↦ absurd (some≢none (sym r ∙ rw (resolve, g) refl))
    | inr (slot, g) ↦ rw (is_registered, g) refl
  ]
