-- ===== src/Stm/Cluster/Interleaved/Calls.antt =====
-- The calls of stm-distrib.c are sequences of the moves.
use mathlib.Core.Path.{subst}
use cluster_stm.Common.Words.{handlerarg}
use cluster_stm.Common.{
  ◌-◌, Bool, if◌then◌else◌, ℕ, ◌+◌, ◌^◌, ◌%◌, ◌<◌, ◌≡◌, sym, ap, refl, inl, inr, Bool-cases,
  ==_refl, ◌==◌, true, false,
}
use cluster_stm.Stm.Types.{
  Run, ok, assert_failed, out_of_fuel, ◌>>=◌, ok-injective, >>=-eq-ok, LockType, read, write,
  Config, Status, commit,
}
use cluster_stm.Stm.Node.{Buffer, Libs, Node, write_bytes, read_bytes}
use cluster_stm.Stm.Copy.{get_local, put_local, memcpy_wb}
use cluster_stm.Stm.Open.{open_local}
use cluster_stm.Stm.Locking.{
  IsVisible, IsKept, get_local-Gives, put_local-Gives, open_local-Gives, memcpy_wb-Copies,
}
use cluster_stm.Stm.Cluster.{Cluster, Ending, returned, set_node, touch, stm_start}
use cluster_stm.Stm.Cluster.Remote.{stm_commit, commit_at}
use cluster_stm.Stm.Cluster.Calls.{stm_get, stm_put, stm_get_handler, stm_put_handler, or_abort}
use cluster_stm.Stm.Cluster.Tracking.{touch-records}
use cluster_stm.Stm.Cluster.Protocol.{
  Phase, running, World, at, touched_by, MayUse, touch_move, quiet_move, Moves, here, later,
}
use cluster_stm.Stm.Cluster.Interleaved.Access.{Leads, set_self, accesses-IsKept, quiet_at}
use cluster_stm.Stm.Cluster.Interleaved.Ends.{or_abort-Leads, stm_finish-Leads}
use cluster_stm.Stm.Cluster.Interleaved.Quiet.{
  IsQuiet-same, reply-IsQuiet, stm_start-IsQuiet, dor-IsQuiet,
}

module _ {l : Libs} {R : Node l → Type 0} {c : Config} {p : ℕ} where
  stm_get_handler-Gives :
      IsKept R c p read
      → (fuel : ℕ) (n : Node l) (src nbytes buf : ℕ) (x : Node l × (Buffer × ℕ)) → R n
      → stm_get_handler c fuel n p src nbytes buf ≡ ok x
      → R x.0
  unfolding stm_get_handler
  stm_get_handler-Gives k fuel n src nbytes buf x r h =
      let (o, opened, rest) = >>=-eq-ok (open_local c fuel n p src nbytes read) _ h in
      let r' = open_local-Gives R c p read k.opens fuel n src nbytes r o.0 o.1 opened in
      elim (Bool-cases c.write_buffering) [
        | inr direct ↦
            subst R (ap (λ (y : Node l × (Buffer × ℕ)). y.0) (ok-injective (rw direct at rest))) r'
        | inl wb ↦
            let (m, copied, last) =
              >>=-eq-ok (memcpy_wb fuel o.0 p src buf _ read) _ (rw wb at rest) in
            subst R (ap (λ (y : Node l × (Buffer × ℕ)). y.0) (ok-injective last))
              (memcpy_wb-Copies k fuel o.0 src buf _ r' m copied)
      ]

module _ {l : Libs} {c : Config} (v : IsVisible c) (procs : ℕ) (w₀ : World l) (ph : ℕ → Phase)
    (p : ℕ) (run : ph p ≡ running) (lt : p < procs) where
  abbrev LeadsOn : Cluster l → Type 0
  LeadsOn = Leads c procs w₀ ph p run lt

  abbrev Returns : Run (Cluster l × Ending) → Type 0
  Returns x = (cl' : Cluster l) (e : Ending) → x ≡ ok (cl', e) → LeadsOn cl'

  ok-Returns : (cl : Cluster l) (e : Ending) → LeadsOn cl → Returns (ok (cl, e))
  ok-Returns cl e r cl' e' h =
      subst LeadsOn (ap (λ (x : Cluster l × Ending). x.0) (ok-injective h)) r

  or_abort-Returns :
      (fuel : ℕ) (cl : Cluster l) (s : Status)
      → LeadsOn cl
      → Returns (ok (or_abort c fuel p cl p s))
  or_abort-Returns fuel cl s r = ok-Returns _ _ (or_abort-Leads v procs w₀ ph p run lt fuel cl s r)

  module _ (cl : Cluster l) (m : ℕ) (may : MayUse cl p m) where
    there : (t : LockType) → IsKept (λ n. LeadsOn (set_node cl m n)) c p t
    there t = accesses-IsKept c procs w₀ ph p run lt cl m t may

    own_node : LeadsOn cl → LeadsOn (set_node cl m (cl.nodes m))
    own_node r = subst LeadsOn (sym (set_self cl m)) r

  if-Returns :
      (b : Bool) (x y : Run (Cluster l × Ending))
      → (b ≡ true → Returns x)
      → (b ≡ false → Returns y)
      → Returns (if b then x else y)
  if-Returns true x y f g = f refl
  if-Returns false x y f g = g refl

  bind-Returns :
      {A : Type 0} (x : Run A) (f : A → Run (Cluster l × Ending))
      → ((a : A) → x ≡ ok a → Returns (f a))
      → Returns (x >>= f)
  bind-Returns (ok a) f by = by a refl
  bind-Returns assert_failed f by = λ cl' e h. absurd (cc h)
  bind-Returns out_of_fuel f by = λ cl' e h. absurd (cc h)

  -- The transaction records a processor, and may use it from then on.
  touched : Cluster l → ℕ → Cluster l
  touched cl m = set_node cl p (touch (cl.nodes p) p m)

  touched-MayUse : (cl : Cluster l) (m : ℕ) → m + 1 < 2 ^ 63 → MayUse (touched cl m) p m
  unfolding touched
  touched-MayUse cl m small =
      inr (small, rw (touched_by, ==_refl p) (touch-records (cl.nodes p) p m))

  touched-Leads : (cl : Cluster l) (m : ℕ) → LeadsOn cl → LeadsOn (touched cl m)
  unfolding touched
  touched-Leads cl m r = later r (touch_move p m run)

  stm_get-Returns :
      (fuel : ℕ) (cl : Cluster l) (dest m src nbytes buf : ℕ)
      → m + 1 < 2 ^ 63
      → LeadsOn cl
      → Returns (stm_get c fuel p cl p dest m src nbytes buf)
  unfolding stm_get touched
  stm_get-Returns fuel cl dest m src nbytes buf small r =
      if-Returns (m == p) _ _
        (λ home. bind-Returns (get_local c fuel (cl.nodes p) p dest src nbytes) _ (λ x got.
          or_abort-Returns fuel (set_node cl p x.0) x.1 (
            get_local-Gives (there cl p (inl refl) read) fuel (cl.nodes p) dest src nbytes
              (own_node cl p (inl refl) r) x.0 x.1 got)))
        (λ away.
          bind-Returns
            (stm_get_handler c fuel ((touched cl m).nodes m) p src (handlerarg nbytes) buf) _
            (λ x got.
              let may = touched-MayUse cl m small in
              let cl' = set_node (touched cl m) m x.0 in
              or_abort-Returns fuel _ _ (
                quiet_at c procs w₀ ph p run lt cl' p _
                  (reply-IsQuiet (cl'.nodes p) x.1.0 x.1.1 dest)
                  (stm_get_handler-Gives (there (touched cl m) m may read) fuel
                    ((touched cl m).nodes m) src (handlerarg nbytes) buf x
                    (own_node (touched cl m) m may (touched-Leads cl m r)) got))))

  stm_put-Returns :
      (fuel : ℕ) (cl : Cluster l) (m dest src nbytes buf : ℕ)
      → m + 1 < 2 ^ 63
      → LeadsOn cl
      → Returns (stm_put c fuel p cl p m dest src nbytes buf)
  unfolding stm_put touched
  stm_put-Returns fuel cl m dest src nbytes buf small r =
      if-Returns (nbytes == 0) _ _ (λ empty. ok-Returns cl returned r)
        (λ bytes.
          if-Returns (m == p) _ _
            (λ home. bind-Returns (put_local c fuel (cl.nodes p) p dest src nbytes) _ (λ x put.
              or_abort-Returns fuel (set_node cl p x.0) x.1 (
                put_local-Gives (there cl p (inl refl) write) fuel (cl.nodes p) dest src nbytes
                  (own_node cl p (inl refl) r) x.0 x.1 put)))
            (λ away.
              let may = touched-MayUse cl m small in
              let arrived = record ((touched cl m).nodes m) {
                mem =
                    write_bytes ((touched cl m).nodes m).mem buf nbytes
                      (read_bytes ((touched cl m).nodes p).mem src);
              } in
              bind-Returns (stm_put_handler c fuel arrived p dest buf nbytes) _ (λ x put.
                or_abort-Returns fuel (set_node (touched cl m) m x.0) x.1 (
                  put_local-Gives (there (touched cl m) m may write) fuel arrived dest buf nbytes
                    (quiet_at c procs w₀ ph p run lt (touched cl m) m arrived
                      (IsQuiet-same ((touched cl m).nodes m) arrived refl refl refl refl)
                      (touched-Leads cl m r))
                    x.0 x.1 (unfold stm_put_handler in put)))))

  stm_commit-Leads : (cl : Cluster l) → LeadsOn cl → LeadsOn (stm_commit c p cl p).0
  unfolding stm_commit commit_at
  stm_commit-Leads cl r =
      let depth = (((cl.nodes p).tx_dors p).tx_depth + (2 ^ 16 - 1)) % 2 ^ 16 in
      let less =
        quiet_at c procs w₀ ph p run lt cl p _
          (dor-IsQuiet (cl.nodes p) p (record ((cl.nodes p).tx_dors p) { tx_depth = depth }) refl
            refl)
          r in
      elim (Bool-cases (depth == 0)) [
        | inl outer ↦ rw outer (stm_finish-Leads v procs w₀ ph p run lt _ commit less)
        | inr inner ↦ rw inner less
      ]

module _ {l : Libs} {c : Config} (v : IsVisible c) (procs : ℕ) (w : World l) (p : ℕ)
    (run : w.phase p ≡ running) (lt : p < procs) where
  -- Without READ_VERSIONING and LATE_ACQUIRE, each call of a transaction on its own processor is a
  -- sequence of moves, after which the transaction is under way again: `stm_start` and `stm_commit`,
  -- and `stm_get` and `stm_put` on any processor (with a number below 2^63 - 1) when they end,
  -- whether they return or jump back to the start of the transaction.
  pub calls-Moves :
      (fuel m dest src nbytes buf : ℕ) (cl' : Cluster l) (e : Ending)
      → m + 1 < 2 ^ 63
      → Moves c procs w (at w p (stm_start (w.cluster.nodes p) p))
        × (stm_get c fuel p w.cluster p dest m src nbytes buf ≡ ok (cl', e)
            → Moves c procs w (record w { cluster = cl' }))
        × (stm_put c fuel p w.cluster p m dest src nbytes buf ≡ ok (cl', e)
            → Moves c procs w (record w { cluster = cl' }))
        × Moves c procs w (record w { cluster = (stm_commit c p w.cluster p).0 })
  calls-Moves fuel m dest src nbytes buf cl' e small = (
    later here (quiet_move p (stm_start-IsQuiet (w.cluster.nodes p) p)),
    stm_get-Returns v procs w w.phase p run lt fuel w.cluster dest m src nbytes buf small here cl'
        e,
    stm_put-Returns v procs w w.phase p run lt fuel w.cluster m dest src nbytes buf small here cl'
        e,
    stm_commit-Leads v procs w w.phase p run lt w.cluster here,
  )
