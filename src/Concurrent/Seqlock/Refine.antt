-- ===== src/Concurrent/Seqlock/Refine.antt =====
-- Under every schedule, the sequence locks behave as an atomic register.
use emblib.Base.{ℕ, ◌%◌, ◌<◌, ◌≡◌, refl, List, [], ◌∷◌, arith, length}
use emblib.Concurrent.Seqlock.{
  Kind, Writer, Reader, System, Action, write, load, write_on, read_on, step, run,
}
use emblib.Concurrent.Seqlock.Register.{ActionFits, AllFit, Explained, writes}
use emblib.Concurrent.Seqlock.Inv.{Inv, Kept}
use emblib.Concurrent.Seqlock.Writes.{begin_write-Kept, continue_write-Kept}
use emblib.Concurrent.Seqlock.Reads.{begin_load-Kept, continue_load-Kept}

-- Between two calls on either side.
unfoldable pub at_rest {ℓ} : {W : Type ℓ} → ℕ → List W → System W
at_rest seq v = record { seq = seq; value = v; writer = Writer.idle; reader = Reader.idle }

module _ {W : Type 0} (n base : ℕ) where
  step-Kept :
      (kind : Kind) (a : Action W) (acts : List (Action W)) (t : ℕ) (cur : List W) (s : System W)
      → ActionFits n a
      → Inv n base t (writes (a ∷ acts)) cur s
      → Kept n base (writes acts) cur (step kind a s)
  unfolding step
  step-Kept kind (write job) acts t cur s fits inv =
      begin_write-Kept job t (writes acts) cur s s.writer refl fits inv
  step-Kept kind load acts t cur s fits inv =
      begin_load-Kept n base t (writes acts) cur s s.reader inv
  step-Kept kind write_on acts t cur s fits inv =
      continue_write-Kept s.writer t (writes acts) cur s refl inv
  step-Kept kind read_on acts t cur s fits inv =
      continue_load-Kept n base kind s.reader t (writes acts) cur s refl inv

  run-Explained :
      (kind : Kind) (acts : List (Action W)) (t : ℕ) (cur : List W) (s : System W)
      → AllFit n acts
      → Inv n base t (writes acts) cur s
      → Explained cur (run kind acts s).1
  unfolding run
  run-Explained kind [] t cur s fits inv = tt
  run-Explained kind (a ∷ acts) t cur s fits inv =
      let (t', right, inv') = step-Kept kind a acts t cur s fits.0 inv in
      (right, run-Explained kind acts t' _ _ fits.1 inv')

-- From any even sequence number between two calls, under any schedule with fewer than 2^31 calls of
-- the writer, whose functions keep the size of the value: each load returns the value that the
-- committed stores and updates have led to when it returns, each update applied to the value before.
pub loads_are_current :
    {W : Type 0} (kind : Kind) (acts : List (Action W)) (seq : ℕ) (v : List W)
    → seq < 4294967296
    → seq % 2 ≡ 0
    → writes acts < 2147483648
    → AllFit (length v) acts
    → Explained v (run kind acts (at_rest seq v)).1
unfolding at_rest
loads_are_current kind acts seq v wide even few fits =
    run-Explained (length v) seq kind acts seq v (at_rest seq v) fits (record {
      seq_is = omega arith;
      since = omega arith;
      bounded = omega arith;
      sized = refl;
      writer_knows = (even, refl);
      reader_knows = tt;
    })
