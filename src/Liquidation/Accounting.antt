-- ===== src/Liquidation/Accounting.antt =====
-- application/paper_liquidation_service.py: the orders of a liquidation in its summary.
use ibkrquant.Prelude.{
  ℕ, ◌+◌, ◌≡◌, refl, sym, ap, true, false, List, [], ◌∷◌, Text, mem_text, is_empty, map, length,
  length-append, All, All-append, if◌then◌else◌, arith, Bool-cases, inl, inr,
}
use mathlib.Core.Path.{subst}
use ibkrquant.Number.{Float}
use ibkrquant.Execution.Types.{Result, ok, raise}
use ibkrquant.Liquidation.{
  Held, Close, Payload, LiquidationSummary, LiquidationStatus, accepted_order_statuses, account_for,
  finish, submit_all, build_liquidation_intents, simulated, first_summary, liquidate, proceed,
  execute_paper_liquidation,
}

module _ {F : Type 0} where
  abbrev pub IsAccepted : Payload F → Type 0
  IsAccepted p = mem_text p.status accepted_order_statuses ≡ true

  abbrev pub IsRefused : Payload F × Text → Type 0
  IsRefused e = mem_text e.0.status accepted_order_statuses ≡ false

  -- What the lists of a summary hold: what was accepted, what was not, and this many in all.
  pub record Accounts (n : ℕ) (s : LiquidationSummary F) : Type 0 where
    pub submitted : All IsAccepted s.orders_submitted
    pub skipped : All IsRefused s.orders_skipped
    pub total : length s.orders_submitted + length s.orders_skipped ≡ n

  account_for-Accounts :
      (n : ℕ) (p : Payload F) (s : LiquidationSummary F)
      → Accounts n s
      → Accounts (n + 1) (account_for p s)
  unfolding account_for
  account_for-Accounts n p s h = elim (Bool-cases (mem_text p.status accepted_order_statuses)) [
    | inl taken ↦ rw taken (record {
      submitted = All-append IsAccepted s.orders_submitted (p ∷ []) h.submitted (taken, tt);
      skipped = h.skipped;
      total = omega (arith, length-append s.orders_submitted (p ∷ []), h.total);
    })
    | inr refused ↦ rw refused (record {
      submitted = h.submitted;
      skipped = All-append IsRefused s.orders_skipped _ h.skipped (refused, tt);
      total = omega (arith, length-append s.orders_skipped (_ ∷ []), h.total);
    })
  ]

  -- What the loop returns: the lists that account for this many orders, and the status they give.
  pub record Settled (n : ℕ) (t : LiquidationSummary F) : Type 0 where
    pub accounts : Accounts n t
    pub status : t.execution_status ≡ (
        if is_empty t.orders_submitted
        then LiquidationStatus.blocked
        else LiquidationStatus.submitted)

  finish-Settled : (n : ℕ) (s : LiquidationSummary F) → Accounts n s → Settled n (finish s)
  finish-Settled n s h = record {
    accounts = record { submitted = h.submitted; skipped = h.skipped; total = h.total };
    status = refl;
  }

module _ {F S : Type 0} (submit : Close F → S → Result (Payload F) × S) where
  after_report :
      (is : List (Close F)) (s t : LiquidationSummary F) (n : ℕ) (r : Result (Payload F))
      (session : S)
      → ((p : Payload F) → (submit_all submit is (account_for p s) session).0 ≡ ok t → Settled n t)
      → (proceed r session (λ p. submit_all submit is (account_for p s))).0 ≡ ok t
      → Settled n t
  after_report is s t n (ok p) session h e = h p e
  after_report is s t n (raise x) session h e = cc

  submit_all-Settled :
      (is : List (Close F)) (n : ℕ) (s t : LiquidationSummary F) (session : S)
      → Accounts n s
      → (submit_all submit is s session).0 ≡ ok t
      → Settled (n + length is) t
  unfolding submit_all
  submit_all-Settled [] n s t session h e =
      let same : finish s ≡ t = cc in
      subst (Settled (n + 0)) same
        (finish-Settled (n + 0) s (subst (λ k. Accounts k s) (omega arith) h))
  submit_all-Settled (i ∷ is) n s t session h e =
      after_report is s t (n + length (i ∷ is)) _ _
        (λ p e'.
          subst (λ k. Settled k t) (omega arith)
            (submit_all-Settled is (n + 1) (account_for p s) t _ (account_for-Accounts n p s h) e'))
        e

  live_liquidation :
      (positions : List (Held F)) (is : List (Close F)) (session : S) (t : LiquidationSummary F)
      → is_empty is ≡ false
      → (liquidate submit positions false is session).0 ≡ ok t
      → Settled (length is) t
  unfolding liquidate
  live_liquidation positions [] session t some_intent e = cc
  live_liquidation positions (i ∷ is) session t some_intent e =
      subst (λ k. Settled k t) (omega arith)
        (submit_all-Settled (i ∷ is) 0 _ t session
          (record { submitted = tt; skipped = tt; total = omega arith }) e)

  dry_liquidation :
      (positions : List (Held F)) (is : List (Close F)) (session : S) (t : LiquidationSummary F)
      → (liquidate submit positions true is session).0 ≡ ok t
      → ((liquidate submit positions true is session).1 ≡ session)
        × (t.orders_submitted ≡ map simulated is)
        × (t.orders_skipped ≡ [])
  unfolding liquidate
  dry_liquidation positions [] session t e =
      let same : first_summary true positions [] ≡ t = cc in
      (refl, sym (ap (λ s. s.orders_submitted) same), sym (ap (λ s. s.orders_skipped) same))
  dry_liquidation positions (i ∷ is) session t e =
      let simulation : LiquidationSummary F = record (first_summary true positions (i ∷ is)) {
        orders_submitted = map simulated (i ∷ is);
      } in
      let same : simulation ≡ t = cc in
      (refl, sym (ap (λ s. s.orders_submitted) same), sym (ap (λ s. s.orders_skipped) same))

  -- A liquidation that is no dry run and has orders to send, if it returns, accounts for each of them
  -- once: those with an accepted status as submitted, the others as skipped. Its status is submitted if
  -- any was accepted and blocked otherwise.
  pub execute_paper_liquidation-Settled :
      ⦃f : Float F⦄ (positions : List (Held F)) (session : S) (t : LiquidationSummary F)
      → is_empty (build_liquidation_intents positions) ≡ false
      → (execute_paper_liquidation submit positions false session).0 ≡ ok t
      → Settled (length (build_liquidation_intents positions)) t
  unfolding execute_paper_liquidation
  execute_paper_liquidation-Settled positions = live_liquidation positions _
