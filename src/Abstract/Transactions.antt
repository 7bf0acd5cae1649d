-- ===== src/Abstract/Transactions.antt =====
-- A transaction around a part of a handler, on the abstract state.
use gmrender_resurrect.Prelude.{ℕ, ◌≡◌, refl, sym, ap, ◌∙◌, Option, none, some}
use gmrender_resurrect.Prelude.Run.{Run, ◌>>=◌, ◌>>◌, pure}
use gmrender_resurrect.XmlDoc.{Ixml}
use gmrender_resurrect.ActionEvent.{Upnp}
use gmrender_resurrect.Output.{OutputModule}
use gmrender_resurrect.Transport.{Transport, service_lock, service_unlock}
use gmrender_resurrect.Abstract.{
  Table, Abs, Refines, Refines-eq, Refines-bind, Refines-pure, opened,
}
use gmrender_resurrect.Abstract.Locks.{Refines-lock, Refines-unlock, unlocked}

module _ ⦃t : Table⦄ ⦃x : Ixml⦄ ⦃u : Upnp⦄ ⦃o : OutputModule⦄ where
  abbrev pub step : (Abs → Abs) → Run Abs (Unit {0})
  step f v = some (tt, f v)

  -- An abstract run that does not look at the open transactions.
  abbrev pub in_depth : {A : Type 0} → Option ℕ → Option (A × Abs) → Option (A × Abs)
  in_depth d none = none
  in_depth d (some (a, w)) = some (a, record w { depth = d })

  abbrev pub IsBlind : {A : Type 0} → Run Abs A → Type 0
  IsBlind f = (v : Abs) (d : Option ℕ) → f (record v { depth = d }) ≡ in_depth d (f v)

  locked_at :
      {A B : Type 0} (k : A → B) (d : Option ℕ) (r : Option (A × Abs))
      → elim (in_depth (opened d) r) [ none ↦ none | some (a, w) ↦ (unlocked >> pure (k a)) w ]
        ≡ elim (in_depth d r) [ none ↦ none | some (a, w) ↦ some (k a, w) ]
  locked_at k none none = refl
  locked_at k (some n) none = refl
  locked_at k none (some (a, w)) = refl
  locked_at k (some n) (some (a, w)) = refl

  -- A transaction around a run leaves no trace.
  pub locked_lem :
      {A B : Type 0} (k : A → B) (f : Run Abs A)
      → IsBlind f
      → (v : Abs)
      → (step (λ w. record w { depth = opened w.depth }) >> (f >>= λ a. unlocked >> pure (k a))) v
        ≡ (f >>= λ a. pure (k a)) v
  locked_lem k f blind v =
      ap (λ r. elim r [ none ↦ none | some (a, w) ↦ (unlocked >> pure (k a)) w ])
        (blind v (opened v.depth))
      ∙ locked_at k v.depth (f v)
      ∙ ap (λ r. elim r [ none ↦ none | some (a, w) ↦ some (k a, w) ]) (sym (blind v v.depth))

  -- A transaction around a part of a handler that keeps its promise.
  pub transaction :
      {A B : Type 0} {m : Transport A} {f : Run Abs A} (k : A → B)
      → Refines m f
      → IsBlind f
      → Refines (service_lock >> (m >>= λ a. service_unlock >> pure (k a))) (f >>= λ a. pure (k a))
  transaction {f = f} k r blind =
      Refines-eq
        (Refines-bind Refines-lock
          λ _. Refines-bind r λ a. Refines-bind Refines-unlock λ _. Refines-pure (k a))
        (locked_lem k f blind)

  unlocked_last :
      (d : Option ℕ) (r : Option (Unit {0} × Abs))
      → elim (in_depth (opened d) r) [ none ↦ none | some (a, w) ↦ unlocked w ] ≡ in_depth d r
  unlocked_last none none = refl
  unlocked_last (some n) none = refl
  unlocked_last none (some (a, w)) = refl
  unlocked_last (some n) (some (a, w)) = refl

  -- The same where the handler ends with the transaction.
  pub transaction_last :
      {m : Transport (Unit {0})} {f : Run Abs (Unit {0})}
      → Refines m f
      → IsBlind f
      → Refines (service_lock >> (m >> service_unlock)) f
  transaction_last {f = f} r blind =
      Refines-eq (Refines-bind Refines-lock λ _. Refines-bind r λ _. Refines-unlock) λ v.
        ap (λ r. elim r [ none ↦ none | some (a, w) ↦ unlocked w ]) (blind v (opened v.depth))
        ∙ unlocked_last v.depth (f v)
        ∙ sym (blind v v.depth)
