-- ===== src/Fabric/Broadcast/Once.antt =====
-- What `broadcast` of src/kernel.rs delivers, for a schema that no projector set consumes.
use trouper.Prelude.{
  ℕ, ◌≡◌, refl, sym, ap, subst, ◌∙◌, ◌⊎◌, inl, inr, Bool, true, false, not, ◌&&◌, Option, none,
  some, List, [], ◌∷◌, arith, str_eq, eq_iff, Bool-cases, Option-cases, contains, NoDup,
  NoDup-retain, returns, IfReturns, IfReturns-bind, IfReturns-mono, Run-cases,
}
use trouper.Journal.{ActorPath, SchemaId}
use trouper.Envelope.{Envelope}
use trouper.Registry.{handlers_of}
use trouper.Registry.Slots.{resolve}
use trouper.Registry.Sets.{is_member, is_some, projector_sets_consuming}
use trouper.Fabric.{Application, Fabric, Endpoint, store_endpoint, deliver}
use trouper.Fabric.Route.Refusals.{HandsBack, deliver-HandsBack, Taken, deliver-Taken}
use trouper.Fabric.Route.Letters.{resolve-store_endpoint}
use trouper.Fabric.Broadcast.{
  broadcast_targets, deliver_copy, deliver_copies, keyed_copies, broadcast,
}
use trouper.Fabric.Broadcast.Recipients.{broadcast_targets-contains}

flipped : (p q : ActorPath) → str_eq p q ≡ false → str_eq q p ≡ false
flipped p q h = ground (arith, h, eq_iff p q, eq_iff q p)

single : (p q : ActorPath) → contains (p ∷ []) q ≡ true → p ≡ q
single p q h = ground (arith, h, eq_iff p q)

not_single : (p q : ActorPath) → contains (p ∷ []) q ≡ false → str_eq p q ≡ false
not_single p q h = ground (arith, h)

module _ {P : Type 0} where
  -- One delivery of the fact to the endpoint at the path: the endpoint has it, or handed it back.
  pub record IsCopied (e : Envelope P) (q : ActorPath) (f g : Fabric P) : Type 0 where
    pub before : Endpoint P
    pub behind : Endpoint P
    pub back : Option (Envelope P)
    pub there : resolve q f.slots ≡ some before
    pub now : resolve q g.slots ≡ some behind
    pub delivered : deliver e before ≡ returns (behind, back)
    pub taken : back ≡ none → Taken e before behind
    pub handed : HandsBack e back

  -- What a copy to one path does, and to that path only.
  record Copies (e : Envelope P) (targets : List ActorPath) (f g : Fabric P) : Type 0 where
    pub at :
        (q : ActorPath)
        → contains targets q ≡ true
        → is_some (resolve q f.slots) ≡ true
        → IsCopied e q f g
    pub elsewhere :
        (q : ActorPath) → contains targets q ≡ false → resolve q g.slots ≡ resolve q f.slots
    pub sets : g.projector_sets ≡ f.projector_sets

  resolve-elsewhere :
      (p q : ActorPath) (ep : Endpoint P) (f : Fabric P)
      → str_eq q p ≡ false
      → resolve q (store_endpoint p ep f).slots ≡ resolve q f.slots
  unfolding resolve store_endpoint
  resolve-elsewhere p q ep f h = rw h refl

  store_endpoint-sets :
      (p : ActorPath) (ep : Endpoint P) (f : Fabric P)
      → (store_endpoint p ep f).projector_sets ≡ f.projector_sets
  unfolding store_endpoint
  store_endpoint-sets p ep f = refl

  deliver_copy-Copies :
      (e : Envelope P) (p : ActorPath) (f : Fabric P)
      → IfReturns (Copies e (p ∷ []) f) (deliver_copy e p f)
  unfolding deliver_copy
  deliver_copy-Copies e p f = elim (Option-cases (resolve p f.slots)) [
    | inl n ↦
        rw (deliver_copy, n)
          (record {
            at = λ q c l.
                let gone = ap (λ x. resolve x f.slots) (sym (single p q c)) ∙ n in
                let clash : ◌≡◌ {A = Bool} false true = rw gone at l in absurd cc;
            elsewhere = λ q c. refl;
            sets = refl;
          })
    | inr (ep, n) ↦ elim (Run-cases (deliver e ep)) [
      | inl m ↦ rw (deliver_copy, n, m) tt
      | inr (r, m) ↦
          rw (deliver_copy, n, m)
            (record {
              at = λ q c l.
                  subst (λ x. IsCopied e x f (store_endpoint p r.0 f)) (single p q c)
                    (record {
                      before = ep;
                      behind = r.0;
                      back = r.1;
                      there = n;
                      now = resolve-store_endpoint p ep r.0 f n;
                      delivered = m;
                      taken =
                          subst (IfReturns (λ r. r.1 ≡ none → Taken e ep r.0)) m
                            (deliver-Taken e ep);
                      handed = subst (IfReturns (λ r. HandsBack e r.1)) m (deliver-HandsBack e ep);
                    });
              elsewhere = λ q c. resolve-elsewhere p q r.0 f (flipped p q (not_single p q c));
              sets = store_endpoint-sets p r.0 f;
            })
    ]
  ]

  joined :
      (e : Envelope P) (p : ActorPath) (ps : List ActorPath) (f g h : Fabric P)
      → contains ps p ≡ false
      → Copies e (p ∷ []) f g
      → Copies e ps g h
      → Copies e (p ∷ ps) f h
  joined e p ps f g h n one rest = record {
    at = λ q c l. elim (Bool-cases (str_eq p q)) [
      | inl s ↦
          let same = (eq_iff p q).0 s in
          let c0 = one.at q (ground (arith, s)) l in
          record {
            before = c0.before;
            behind = c0.behind;
            back = c0.back;
            there = c0.there;
            now = rest.elsewhere q (subst (λ x. contains ps x ≡ false) same n) ∙ c0.now;
            delivered = c0.delivered;
            taken = c0.taken;
            handed = c0.handed;
          }
      | inr s ↦
          let same = one.elsewhere q (ground (arith, s)) in
          let c0 = rest.at q (ground (arith, c, s)) (ap is_some same ∙ l) in
          record {
            before = c0.before;
            behind = c0.behind;
            back = c0.back;
            there = sym same ∙ c0.there;
            now = c0.now;
            delivered = c0.delivered;
            taken = c0.taken;
            handed = c0.handed;
          }
    ];
    elsewhere = λ q c. rest.elsewhere q (ground (arith, c)) ∙ one.elsewhere q (ground (arith, c));
    sets = rest.sets ∙ one.sets;
  }

  deliver_copies-Copies :
      (e : Envelope P) (targets : List ActorPath) (f : Fabric P)
      → NoDup targets
      → IfReturns (Copies e targets f) (deliver_copies e targets f)
  unfolding deliver_copies
  deliver_copies-Copies e [] f n = record {
    at = λ q c l. absurd (ground (arith, c));
    elsewhere = λ q c. refl;
    sets = refl;
  }
  deliver_copies-Copies e (p ∷ ps) f n =
      IfReturns-bind (Copies e (p ∷ []) f) (Copies e (p ∷ ps) f) (deliver_copy e p f) _
        (deliver_copy-Copies e p f)
        (λ g one.
          IfReturns-mono (Copies e (p ∷ ps) f) (deliver_copies e ps g)
            (deliver_copies-Copies e ps g n.1) (λ h rest. joined e p ps f g h n.0 one rest))

-- Whether a path is a handler of the schema that is live and no member of a projector set.
abbrev pub is_plain : {P : Type 0} → SchemaId → Fabric P → ActorPath → Bool
is_plain id f q =
    contains (handlers_of id f.routing) q
    && is_some (resolve q f.slots)
    && not (is_member f.projector_sets q)

module _ {P : Type 0} (app : Application P) where
  -- A broadcast of a schema that no projector set consumes, if it returns and the schema's handlers are
  -- registered once each: a path that is a live handler and no member of a projector set gets exactly
  -- one delivery of the fact, on top of what its endpoint had; and every other path has the
  -- endpoint that it had.
  pub broadcast-plain :
      (fresh : ℕ) (id : SchemaId) (e : Envelope P) (f : Fabric P)
      → NoDup (handlers_of id f.routing)
      → projector_sets_consuming id f.projector_sets ≡ []
      → IfReturns
          (λ g.
            (q : ActorPath)
            → ((is_plain id f q ≡ true) × IsCopied e q f g)
              ⊎ ((is_plain id f q ≡ false) × (resolve q g.slots ≡ resolve q f.slots)))
          (broadcast app fresh id e f)
  unfolding broadcast keyed_copies broadcast_targets
  broadcast-plain fresh id e f n none_consumes =
      let targets = broadcast_targets id f in
      IfReturns-bind (Copies e targets f) _ (deliver_copies e targets f) _
        (deliver_copies-Copies e targets f (NoDup-retain _ _ (NoDup-retain _ _ n)))
        (λ g copies.
          let nobody : projector_sets_consuming id g.projector_sets ≡ [] =
            ap (projector_sets_consuming id) copies.sets ∙ none_consumes in
          rw (nobody, keyed_copies)
            (λ q.
              let known = broadcast_targets-contains id f q in
              elim (Bool-cases (is_plain id f q)) [
                | inl y ↦ inl (y, copies.at q (known ∙ y) (ground (arith, y)))
                | inr z ↦ inr (z, copies.elsewhere q (known ∙ z))
              ]))
