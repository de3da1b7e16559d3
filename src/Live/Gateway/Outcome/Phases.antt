-- ===== src/Live/Gateway/Outcome/Phases.antt =====
-- services/live_trading/gateway.py: the phases of `place_order`, from the validation of a new order
-- to its acknowledgement.
use crypt_tool.Base.{ℕ, ◌≡◌, refl, inl, inr, str_eq, ◌∷◌, if_both}
use crypt_tool.Base.Results.{
  Exception, value_error, duplicate_fill_error, key_error, runtime_error, index_error,
  execution_adapter_error, other_error, Result, ok, err,
}
use crypt_tool.Live.Orders.{Request, Ack}
use crypt_tool.Live.Gateway.{Config, Gateway, ◌>>=◌, pure, catch, await, audit}
use crypt_tool.Live.Gateway.Place.{
  returned, goes_on, on_ack_error, recover_ack, acknowledge, protocol_error, after_submission,
  marking, aborting, submission_phase, reserved_phase, adapter_failed, submit,
}
use crypt_tool.Live.Gateway.Worlds.{placed}
use crypt_tool.Live.Gateway.Frame.{
  Keeps, frame_rules, await-Keeps, catch-Keeps, raise-Keeps, audit-Keeps,
}
use crypt_tool.Live.Gateway.Frame.Bindings.{
  abort_preflight-Keeps, record_preflight_ack-Keeps, mark_reconciliation_required-Keeps,
}
use crypt_tool.Live.Gateway.Frame.Exchange.{refresh-Keeps, handle_cas_snapshot-Keeps}
use crypt_tool.Live.Gateway.Outcome.{Outcome, Answers}
use crypt_tool.Live.Gateway.Outcome.Rules.{
  Places, Fails, raise-Fails, >>=-Fails, first-Places, catch-Parts, Parts-Places, Fails-Places,
}
use crypt_tool.Live.Gateway.Outcome.Checks.{answered_outcome, IsChecked, check-Parts}

module _ {W : Type 0} (c : Config W) (r : Request) where
  recover_ack-Keeps : (now : ℕ) (e : Exception) → Keeps c (recover_ack c r now e)
  unfolding recover_ack
  recover_ack-Keeps now e = search (frame_rules, refresh-Keeps, handle_cas_snapshot-Keeps) depth 8

  on_ack_error-Keeps : (now : ℕ) (e : Exception) → Keeps c (on_ack_error c r now e)
  on_ack_error-Keeps now (execution_adapter_error m) = recover_ack-Keeps now _
  on_ack_error-Keeps now (value_error m) = raise-Keeps _
  on_ack_error-Keeps now (duplicate_fill_error m) = raise-Keeps _
  on_ack_error-Keeps now (key_error m) = raise-Keeps _
  on_ack_error-Keeps now (runtime_error m) = raise-Keeps _
  on_ack_error-Keeps now (index_error m) = raise-Keeps _
  on_ack_error-Keeps now (other_error m) = raise-Keeps _

  -- What is raised in place of an error of the adapter.
  pub adapter_failed-Fails :
      {A : Type 0} (now : ℕ) (e : Exception) → Fails c (adapter_failed c {A = A} r now e)
  unfolding adapter_failed
  adapter_failed-Fails now e = >>=-Fails (audit-Keeps c now _ _ _ _ _) (λ u. raise-Fails _)

  marking-Fails : (now : ℕ) (e : Exception) → Fails c (marking c r now e)
  marking-Fails now e =
      >>=-Fails (mark_reconciliation_required-Keeps r now _) (λ u. adapter_failed-Fails now e)

  aborting-Fails : (now : ℕ) (e : Exception) → Fails c (aborting c r now e)
  aborting-Fails now e = >>=-Fails (abort_preflight-Keeps r now _) (λ u. adapter_failed-Fails now e)

  protocol_error-Fails : (now : ℕ) → Fails c (protocol_error c r now)
  unfolding protocol_error
  protocol_error-Fails now =
      >>=-Fails (mark_reconciliation_required-Keeps r now _)
        (λ u. >>=-Fails (audit-Keeps c now _ _ _ _ _) (λ v. raise-Fails _))

module _ {W : Type 0} (from : Gateway W) (r : Request) (c : Config W) where
  acknowledge-Places : (P : Type 0) (a : Ack) (now : ℕ) → Places c from r P (acknowledge c r a now)
  unfolding acknowledge audit
  acknowledge-Places P a now =
      first-Places from r P
        (catch-Keeps (record_preflight_ack-Keeps r a now) (on_ack_error-Keeps c r now))
        (λ u. record { places = λ g n. answered_outcome from r P a g _ n (λ k. k) refl refl })

  after_submission-Places :
      (P : Type 0) (a : Ack) (now : ℕ) → Places c from r P (after_submission c r now a)
  unfolding after_submission
  after_submission-Places P a now =
      if_both (Places c from r P) (str_eq a.request_id r.request_id) (acknowledge-Places P a now)
        (Fails-Places from r P (protocol_error-Fails c r now))

  -- The request is counted as sent before the adapter is called, and nothing more is sent then.
  sent_outcome :
      (P : Type 0) (g h : Gateway W) (res : Result Ack)
      → P
      → Outcome r ⊥ (record g { sent = r ∷ g.sent }) res h
      → Outcome r P g res h
  sent_outcome P g h res p o = record {
    killed = o.killed;
    sends = elim o.sends [ inl e ↦ inr (e, p) | inr (e, x) ↦ elim x [ ] ];
    grows = o.grows;
    answers = answers_on res o.answers;
  }
    where
      answers_on :
          (x : Result Ack) → Answers r (record g { sent = r ∷ g.sent }) x h → Answers r g x h
      answers_on (ok a) e = e
      answers_on (err x) e = e

  adapter-Places :
      (P : Type 0) (now : ℕ)
      → Places c from r P
          (catch (await (c.adapter.place_order r)) (marking c r now) >>= after_submission c r now)
  adapter-Places P now =
      first-Places from r P
        (catch-Keeps (await-Keeps (c.adapter.place_order r) (λ w. placed r))
          (λ e. (marking-Fails c r now e).keeps))
        (λ a. after_submission-Places P a now)

  submission-Places :
      (P : Type 0) (now : ℕ) → P → Places c from r P (submission_phase c r now goes_on)
  unfolding submission_phase submit
  submission-Places P now p = record {
    places = λ g n. sent_outcome P g _ _ p (
        (adapter-Places ⊥ now).places (record g { sent = r ∷ g.sent })
          (record { killed = n.killed; unknown = n.unknown; passes = n.passes }));
  }

  returned_submission : (now : ℕ) (a : Ack) → submission_phase c r now (returned a) ≡ pure a
  unfolding submission_phase
  returned_submission now a = refl

  pub returned_reserved : (now : ℕ) (a : Ack) → reserved_phase c r now (returned a) ≡ pure a
  unfolding reserved_phase
  returned_reserved now a = refl

  pub reserved-Places :
      (P : Type 0) (now : ℕ)
      → (IsChecked c from.world r → P)
      → Places c from r P (reserved_phase c r now goes_on)
  unfolding reserved_phase
  reserved-Places P now p =
      Parts-Places from r P (IsChecked c from.world r) (submission_phase c r now)
        (catch-Parts from r P (IsChecked c from.world r) (check-Parts from r P c now)
          (aborting-Fails c r now))
        (λ x. submission-Places P now (p x)) (returned_submission now)
