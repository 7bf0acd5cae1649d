-- ===== src/Abstract/Ends.antt =====
-- What a run that has ended says of its abstraction.
use mathlib.Core.Path.{subst}
use mathlib.Core.Option.{none-ne-some}
use gmrender_resurrect.Prelude.{◌≡◌, sym, Option, none, some}
use gmrender_resurrect.Prelude.Run.{Run, Returns-at}
use gmrender_resurrect.XmlDoc.{Ixml}
use gmrender_resurrect.ActionEvent.{Upnp, Session}
use gmrender_resurrect.Output.{OutputModule}
use gmrender_resurrect.Transport.{Own, Transport}
use gmrender_resurrect.Abstract.{Table, Abs, abs, IsGood, Match, Refines}

module _ ⦃t : Table⦄ ⦃x : Ixml⦄ ⦃u : Upnp⦄ ⦃o : OutputModule⦄ where
  -- Code that refines an abstract run ends where that does, in a session that is ready, and so a
  -- property of the end of the abstract run holds of that session.
  pub Refines-ends :
      {A : Type 0} {m : Transport A} {f : Run Abs A}
      → Refines m f
      → (P : Option (A × Abs) → Type 0) (s w : Session Own) (a : A) → IsGood s
      → P (f (abs s))
      → m s ≡ some (a, w)
      → IsGood w × P (some (a, abs w))
  Refines-ends {A = A} {f = f} r P s w a good h e =
      by_match (f (abs s)) h (subst (Match (f (abs s))) e (r.apply s good))
    where
      by_match :
          (p : Option (A × Abs)) → P p → Match p (some (a, w)) → IsGood w × P (some (a, abs w))
      by_match none k m = absurd (none-ne-some _ (sym m))
      by_match (some (b, v)) k m =
          let (good, eb, ev) = Returns-at m in
          (good, subst (λ v. P (some (a, v))) (sym ev) (subst (λ b. P (some (b, v))) (sym eb) k))
