-- ===== src/System/Landing.antt =====
-- What a step does to a job that is pending, and that nobody is about to mark as delivered
-- (internal/forwarder/forwarder.go).
use vahak.Prelude.{
  ◌+◌, ◌≤◌, ◌≡◌, ◌≢◌, refl, sym, ap, subst, ◌∙◌, inl, inr, Bool, true, false, some, List, [], ◌∷◌,
  arith, Bool-cases, any, any-append, ◌==◌, ==_iff,
}
use mathlib.Core.Bool.{false≢true}
use vahak.Models.{Uuid, failed}
use vahak.Retry.{max_attempts}
use vahak.Store.Db.{JobRow}
use vahak.Store.Engine.{Engine, Pending}
use vahak.Forwarder.Deliver.{OutgoingRequest}
use vahak.Forwarder.Others.{alone}
use vahak.Forwarder.Phases.{Flight, job_of, is_success}
use vahak.Forwarder.Phases.Course.{Course, advance-Course, advance-IsAside}
use vahak.System.Flights.{is_winner, put_flight-unwon, advance-other}
use vahak.System.{with_store, System, collect, store_of, landed, fly}

-- The job with that identifier is among those that are to be marked as delivered.
abbrev pub is_marked : Uuid → List Uuid → Bool
is_marked k ids = any (λ i. i == k) ids

module _ (engine : Engine) where
  open engine use {storage}

  -- The job is pending, nobody is about to mark it as delivered, and no call has its 2xx.
  pub record Pends (k : Uuid) (s : System engine) : Type 0 where
    pub waits_still : Pending storage k (store_of engine s)
    pub unmarked_ch : is_marked k s.forwarder.delivered_ch ≡ false
    pub unmarked_ids : is_marked k s.ids ≡ false
    pub unwon : any (is_winner k) s.flights ≡ false

  pub collect-Pends :
      (k : Uuid) (ch : List Uuid) (s : System engine)
      → s.forwarder.delivered_ch ≡ ch
      → Pends k s
      → Pends k (collect engine ch s)
  unfolding collect any
  collect-Pends k [] s e p = p
  collect-Pends k (id ∷ ch) s e p =
      let both : is_marked k (id ∷ ch) ≡ false =
        subst (λ l. is_marked k l ≡ false) e p.unmarked_ch in
      record {
        waits_still = p.waits_still;
        unmarked_ch = ground (arith, both);
        unmarked_ids =
            ground (arith, both, p.unmarked_ids, any-append (λ i. i == k) s.ids (id ∷ []));
        unwon = p.unwon;
      }

  pub with_store-Pends :
      (k : Uuid) (st : storage.State) (s : System engine)
      → Pending storage k st
      → Pends k s
      → Pends k (with_store engine st s)
  with_store-Pends k st s waiting p = record {
    waits_still = waiting;
    unmarked_ch = p.unmarked_ch;
    unmarked_ids = p.unmarked_ids;
    unwon = p.unwon;
  }

  -- What a step of a taken call may come to.
  pub data Landing (flight : Flight) (k : Uuid) (s t : System engine) : Type 0 where
    pends : Pends k t → Landing flight k s t
    arrives :
        (out : OutgoingRequest)
        → (job_of flight).id ≡ k
        → t.forwarder.sent ≡ (out, true) ∷ s.forwarder.sent
        → out.url ≡ (job_of flight).target_url
        → Landing flight k s t
    fails :
        (row : JobRow)
        → (job_of flight).id ≡ k
        → storage.job_at k (store_of engine t) ≡ some row
        → row.status ≡ failed
        → row.attempts ≡ (job_of flight).attempts + 1
        → max_attempts ≤ (job_of flight).attempts + 1
        → Landing flight k s t

  fly-other :
      (k : Uuid) (flight : Flight) (others : List Flight) (s : System engine)
      → k ≢ (job_of flight).id
      → any (is_winner k) others ≡ false
      → Pends k s
      → Pends k (fly engine (some flight, others) s)
  unfolding fly landed
  fly-other k flight others s ne unwon p =
      let aside = advance-IsAside storage flight k s.forwarder ne in
      let (row, there, waiting) = p.waits_still in
      record {
        waits_still = (row, aside.same_row ∙ there, waiting);
        unmarked_ch = elim aside.same_ch [
          | inl same ↦ ap (is_marked k) same ∙ p.unmarked_ch
          | inr grown ↦
              ap (is_marked k) grown
              ∙ any-append (λ i. i == k) s.forwarder.delivered_ch ((job_of flight).id ∷ [])
              ∙ ground (arith, p.unmarked_ch, alone k (job_of flight).id ne)
        ];
        unmarked_ids = p.unmarked_ids;
        unwon = advance-other storage k flight s.forwarder others ne unwon;
      }

  fly-own :
      (flight : Flight) (others : List Flight) (s : System engine)
      → is_success flight ≡ false
      → any (is_winner (job_of flight).id) others ≡ false
      → Pends (job_of flight).id s
      → Landing flight (job_of flight).id s (fly engine (some flight, others) s)
  unfolding fly landed
  fly-own flight others s lost unwon p =
      let (row, there, waiting) = p.waits_still in
      elim (advance-Course storage flight s.forwarder row lost there waiting) [
        | Course.goes_on row' there' waiting' same next ↦ pends (record {
          waits_still = (row', there', waiting');
          unmarked_ch = ap (is_marked (job_of flight).id) same ∙ p.unmarked_ch;
          unmarked_ids = p.unmarked_ids;
          unwon = put_flight-unwon (job_of flight).id _ others next unwon;
        })
        | Course.arrives out logged url ↦ arrives out refl logged url
        | Course.fails row' there' f a m ↦ fails row' refl there' f a m
      ]

  pub fly-Landing :
      (k : Uuid) (flight : Flight) (others : List Flight) (s : System engine)
      → any (is_winner k) (flight ∷ others) ≡ false
      → Pends k s
      → Landing flight k s (fly engine (some flight, others) s)
  unfolding any
  fly-Landing k flight others s unwon p = elim (Bool-cases ((job_of flight).id == k)) [
    | inr other ↦ pends (
        fly-other k flight others s
          (λ e. false≢true (sym other ∙ (==_iff (job_of flight).id k).1 (sym e)))
          (ground (arith, unwon)) p)
    | inl same ↦
        let e = (==_iff (job_of flight).id k).0 same in
        subst (λ i. Landing flight i s (fly engine (some flight, others) s)) e
          (fly-own flight others s (ground (arith, unwon, same))
            (subst (λ i. any (is_winner i) others ≡ false) (sym e) (ground (arith, unwon)))
            (subst (λ i. Pends i s) (sym e) p))
  ]
