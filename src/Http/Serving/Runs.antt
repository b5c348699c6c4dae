-- ===== src/Http/Serving/Runs.antt =====
-- A server over a list of events, from any tasks that wait (samples/http_sync_async_server and
-- samples/simple_http_server).
use gexecutor.Prelude.{
  ℕ, ◌+◌, ◌^◌, ◌≤◌, ◌<◌, ◌≡◌, refl, sym, ap, ◌∙◌, List, [], ◌∷◌, ◌++◌, length, length-append,
  Outcome, done, >>=-eq-done, arith,
}
use mathlib.Core.List.{append-nil, append_assoc}
use mathlib.Core.Path.{subst}
use gexecutor.Pipe.{Pipe}
use gexecutor.Store.{Store}
use gexecutor.Http.{Request, Log}
use gexecutor.Http.Replies.{sum, sum-append}
use gexecutor.Http.Serving.{
  Event, arrives, async_turn, sync_turn, arrivals, ServerKind, all_expected, Serving,
  Serving-weaken, Served, turn, serve, play, Laws, Each,
}

arrivals-append : (xs ys : List Event) → arrivals (xs ++ ys) ≡ arrivals xs ++ arrivals ys
arrivals-append [] ys = refl
arrivals-append (arrives req ∷ xs) ys = ap (λ l. req ∷ l) (arrivals-append xs ys)
arrivals-append (async_turn self ∷ xs) ys = arrivals-append xs ys
arrivals-append (sync_turn self ∷ xs) ys = arrivals-append xs ys

module _ {B : Type 0} (v : ServerKind B) where
  pub all_expected-append :
      (xs ys : List Request) → all_expected v (xs ++ ys) ≡ all_expected v xs ++ all_expected v ys
  all_expected-append [] ys = refl
  all_expected-append (req ∷ xs) ys =
      ap (λ l. v.expected req ++ l) (all_expected-append xs ys)
      ∙ sym (append_assoc (v.expected req) (all_expected v xs) (all_expected v ys))

  -- The turns that an event is, where there is a task for it.
  abbrev pub spends : (ts us : List ℕ) → Event → ℕ
  spends ts us (arrives req) = 0
  spends [] us (async_turn self) = 0
  spends (t ∷ ts) us (async_turn self) = 1
  spends ts [] (sync_turn self) = 0
  spends ts (t ∷ us) (sync_turn self) = 1

  -- A step of the server that does nothing.
  unfoldable pub rests :
      {P : Type 0} (limit : ℕ) (ts us : List ℕ) (s : Store B P Log)
      → Serving v limit ts us s
      → Served v limit ts us [] 0 s s
  rests limit ts us s d = record {
    ts' = ts;
    us' = us;
    log = [];
    world = sym (append-nil s.world);
    serving = d;
    accounts = λ f. omega arith;
    effort = omega arith;
  }

  -- One part of a run after another.
  unfoldable pub follows :
      {P : Type 0} {limit limit' spent spent' : ℕ} {ts us : List ℕ}
      {arrived arrived' : List Request} {s s' s2 : Store B P Log}
      → (d : Served v limit ts us arrived spent s s')
      → Served v limit' d.ts' d.us' arrived' spent' s' s2
      → Served v limit' ts us (arrived ++ arrived') (spent + spent') s s2
  follows {arrived = arrived} {arrived'} {s} d e = record {
    ts' = e.ts';
    us' = e.us';
    log = d.log ++ e.log;
    world = e.world ∙ rw d.world (append_assoc s.world d.log e.log);
    serving = e.serving;
    accounts = λ f. omega (
      arith,
      d.accounts f,
      e.accounts f,
      ap (sum f) (all_expected-append arrived arrived'),
      sum-append f (all_expected v arrived) (all_expected v arrived'),
    );
    effort = omega (arith, d.effort, e.effort, length-append arrived arrived');
  }

  module _ {P : Type 0} (io : Pipe P) (execute : ℕ → Store B P Log → Outcome (Store B P Log))
      (handler : Request → Store B P Log → Outcome (Store B P Log)) where
    -- A run after a run that has come to its end.
    pub play-after :
        (xs ys : List Event) (s s1 : Store B P Log)
        → play v io execute handler xs s ≡ done s1
        → play v io execute handler (xs ++ ys) s ≡ play v io execute handler ys s1
    unfolding play
    play-after [] ys s s1 h = cc h
    play-after (x ∷ xs) ys s s1 h =
        let (there, first, later) =
          >>=-eq-done (serve v io execute handler x s) (play v io execute handler xs) h in
        rw first (play-after xs ys there s1 later)

    pub async_turn-idle :
        (self limit : ℕ) (us : List ℕ) (s : Store B P Log)
        → Serving v limit [] us s
        → serve v io execute handler (async_turn self) s ≡ done s
    unfolding serve
    async_turn-idle self limit us s d = rw (d.async_holds.queued, turn) refl

    module _ (Known : Request → Type 0) (laws : Laws v io execute handler Known) where
      pub serve_lem :
          (ev : Event) (limit : ℕ) (ts us : List ℕ) (s : Store B P Log)
          → limit + 1 < 2 ^ 64
          → Each Known (arrivals (ev ∷ []))
          → Serving v limit ts us s
          → (s' : Store B P Log) × (serve v io execute handler ev s ≡ done s')
            × Served v (limit + 1) ts us (arrivals (ev ∷ [])) (spends ts us ev) s s'
      unfolding serve
      serve_lem (arrives req) limit ts us s few (known, _) d =
          laws.arrival limit ts us req s few known d
      serve_lem (async_turn self) limit [] us s few known d =
          (s, rw (d.async_holds.queued, turn) refl, rests (limit + 1) [] us s (Serving-weaken v d))
      serve_lem (async_turn self) limit (t ∷ ts) us s few known d =
          let (s', runs, e) = laws.async_step self limit t ts us s few d in
          (s', rw (d.async_holds.queued, turn) runs, e)
      serve_lem (sync_turn self) limit ts [] s few known d =
          (s, rw (d.sync_holds.queued, turn) refl, rests (limit + 1) ts [] s (Serving-weaken v d))
      serve_lem (sync_turn self) limit ts (t ∷ us) s few known d =
          let (s', runs, e) = laws.sync_step self limit t ts us s few d in
          (s', rw (d.sync_holds.queued, turn) runs, e)

      known_first :
          (ev : Event) (evs : List Event)
          → Each Known (arrivals (ev ∷ evs))
          → Each Known (arrivals (ev ∷ [])) × Each Known (arrivals evs)
      known_first (arrives req) evs (known, rest) = ((known, tt), rest)
      known_first (async_turn self) evs known = (tt, known)
      known_first (sync_turn self) evs known = (tt, known)

      -- The whole run of a list of events.
      pub play_lem :
          (evs : List Event) (limit : ℕ) (ts us : List ℕ) (s : Store B P Log)
          → limit + length evs < 2 ^ 64
          → Each Known (arrivals evs)
          → Serving v limit ts us s
          → (s' : Store B P Log) × (limit' spent : ℕ) × (play v io execute handler evs s ≡ done s')
            × (limit' ≤ limit + length evs)
            × Served v limit' ts us (arrivals evs) spent s s'
      unfolding play
      play_lem [] limit ts us s few known d =
          (s, limit, 0, refl, omega arith, rests limit ts us s d)
      play_lem (ev ∷ evs) limit ts us s few known d =
          let (now, later) = known_first ev evs known in
          let (s1, first, e) = serve_lem ev limit ts us s (omega (arith, few)) now d in
          let (s2, limit2, spent, rest, below, e2) =
            play_lem evs (limit + 1) e.ts' e.us' s1 (omega (arith, few)) later e.serving in
          (
            s2,
            limit2,
            spends ts us ev + spent,
            rw first rest,
            omega (arith, below),
            subst (λ (l : List Request). Served v limit2 ts us l (spends ts us ev + spent) s s2)
                (sym (arrivals-append (ev ∷ []) evs)) (follows e e2),
          )
