-- ===== src/Provisioning/Lock.antt =====
-- Requests and tasks that take and give back the lock of one plan in any order
-- (`acquire_subscription_plan_lock` and `release_subscription_plan_lock` of api/utils.py): first
-- with whole calls as steps, then with the two halves of an acquisition, the read of the cache and
-- the write, as steps of their own. Between the calls time passes, and a lock that runs out leaves
-- the cache; its default timeout is a parameter, since the setting is not in the repository.
use license_manager.Base.{
  ℕ, ◌+◌, ◌*◌, ◌≤◌, ◌≡◌, ◌≢◌, refl, ◌∙◌, Bool, true, false, Option, none, some, ◌∷◌, arith, exists,
  select, ltb, ◌==◌, if◌then◌else◌,
}
use license_manager.Models.{second}
use license_manager.Store.{World, PlanLock, is_lock_of, ok}
use license_manager.Provisioning.{
  acquired_lock, acquire_subscription_plan_lock, release_subscription_plan_lock,
}

-- What a client of the lock is doing
pub data Phase : Type 0 where
  idle found_free holding : Phase

pub record System : Type 0 where
  pub world : World
  pub phase : ℕ → Phase

abbrev pub now_in : Phase → ℕ → (ℕ → Phase) → ℕ → Phase
now_in p t phase u = if u == t then p else phase u

abbrev pub is_locked : ℕ → World → Bool
is_locked plan w = exists (is_lock_of plan) w.locks

-- A lock that has not run out, with the seconds that the cache keeps an entry by default
abbrev pub is_live : ℕ → ℕ → PlanLock → Bool
is_live default_timeout now l =
    ltb now (l.since + elim l.django_cache_timeout [ none ↦ default_timeout | some s ↦ s ] * second)

-- Time passes, and the locks that run out are gone.
abbrev pub later : ℕ → ℕ → World → World
later default_timeout now w = record w {
  now = now;
  locks = select (is_live default_timeout now) w.locks;
}

-- One call by one client, from start to end, or time that passes
pub data Call (default_timeout plan : ℕ) (s s' : System) : Type 0 where
  acquired :
      (t : ℕ) (timeout : Option ℕ) (w' : World)
      → s.phase t ≡ idle
      → acquire_subscription_plan_lock plan timeout s.world ≡ (ok true, w')
      → s' ≡ record { world = w'; phase = now_in holding t s.phase }
      → Call default_timeout plan s s'
  refused :
      (t : ℕ) (timeout : Option ℕ) (w' : World)
      → s.phase t ≡ idle
      → acquire_subscription_plan_lock plan timeout s.world ≡ (ok false, w')
      → s' ≡ record { world = w'; phase = s.phase }
      → Call default_timeout plan s s'
  released :
      (t : ℕ) (w' : World)
      → s.phase t ≡ holding
      → release_subscription_plan_lock plan s.world ≡ (ok tt, w')
      → s' ≡ record { world = w'; phase = now_in idle t s.phase }
      → Call default_timeout plan s s'
  passed :
      (now : ℕ)
      → s.world.now ≤ now
      → s' ≡ record { world = later default_timeout now s.world; phase = s.phase }
      → Call default_timeout plan s s'

-- The systems that calls lead to from a start
pub data Calls (default_timeout plan : ℕ) (start : System) : System → Type 0 where
  here : Calls default_timeout plan start start
  next :
      {s s' : System}
      → Calls default_timeout plan start s
      → Call default_timeout plan s s'
      → Calls default_timeout plan start s'

-- A lock that some client holds does not run out while time passes.
abbrev pub IsInTime : {d plan : ℕ} {s s' : System} → Call d plan s s' → Type 0
IsInTime {d} {plan} {s} (passed now le r) =
    (t : ℕ) → s.phase t ≡ holding → is_locked plan (later d now s.world) ≡ true
IsInTime (acquired t timeout w' i e r) = Unit
IsInTime (refused t timeout w' i e r) = Unit
IsInTime (released t w' i e r) = Unit

abbrev pub AreInTime : {d plan : ℕ} {start s : System} → Calls d plan start s → Type 0
AreInTime here = Unit
AreInTime (next r c) = AreInTime r × IsInTime c

-- No client holds the lock, and it is free.
pub record IsStart (plan : ℕ) (s : System) : Type 0 where
  pub free : is_locked plan s.world ≡ false
  pub none_holds : (t : ℕ) → s.phase t ≡ idle

record IsExclusive (plan : ℕ) (s : System) : Type 0 where
  covered : (t : ℕ) → s.phase t ≡ holding → is_locked plan s.world ≡ true
  one : (t u : ℕ) → s.phase t ≡ holding → s.phase u ≡ holding → t ≡ u

acquire_free :
    (plan : ℕ) (timeout : Option ℕ) (w w' : World)
    → acquire_subscription_plan_lock plan timeout w ≡ (ok true, w')
    → is_locked plan w ≡ false
unfolding acquire_subscription_plan_lock
acquire_free plan timeout w w' e = ground arith

acquire_locks :
    (plan : ℕ) (timeout : Option ℕ) (w w' : World)
    → acquire_subscription_plan_lock plan timeout w ≡ (ok true, w')
    → is_locked plan w' ≡ true
unfolding acquire_subscription_plan_lock
acquire_locks plan timeout w w' e = ground arith

refuse_keeps :
    (plan : ℕ) (timeout : Option ℕ) (w w' : World)
    → acquire_subscription_plan_lock plan timeout w ≡ (ok false, w')
    → is_locked plan w' ≡ is_locked plan w
unfolding acquire_subscription_plan_lock
refuse_keeps plan timeout w w' e = ground arith

Call-IsExclusive :
    {d plan : ℕ} {s s' : System} (c : Call d plan s s')
    → IsInTime c
    → IsExclusive plan s
    → IsExclusive plan s'
Call-IsExclusive {d} {plan} {s} (acquired t timeout w' i e r) in_time x =
    let free = acquire_free plan timeout s.world w' e in
    let taken = acquire_locks plan timeout s.world w' e in
    rw r (record {
      covered = λ u h. taken;
      one = λ u v hu hv. ground (arith, x.covered u, x.covered v);
    })
Call-IsExclusive {d} {plan} {s} (refused t timeout w' i e r) in_time x =
    let same_lock = refuse_keeps plan timeout s.world w' e in
    rw r (record { covered = λ u h. same_lock ∙ x.covered u h; one = x.one })
Call-IsExclusive {d} {plan} {s} (released t w' i e r) in_time x = rw r (record {
  covered = λ u h. ground (arith, x.one u t);
  one = λ u v hu hv. ground (arith, x.one u t, x.one v t);
})
Call-IsExclusive {d} {plan} {s} (passed now le r) in_time x =
    rw r (record { covered = in_time; one = x.one })

start-IsExclusive : (plan : ℕ) (s : System) → IsStart plan s → IsExclusive plan s
start-IsExclusive plan s i = record {
  covered = λ t h. ground (arith, i.none_holds t);
  one = λ t u h k. ground (arith, i.none_holds t);
}

Calls-IsExclusive :
    {d plan : ℕ} {start s : System} (r : Calls d plan start s)
    → IsStart plan start
    → AreInTime r
    → IsExclusive plan s
Calls-IsExclusive {d} {plan} {start} here i in_time = start-IsExclusive plan start i
Calls-IsExclusive (next r c) i in_time =
    Call-IsExclusive c in_time.1 (Calls-IsExclusive r i in_time.0)

-- From a start where no client holds the lock of the plan and it is free, whatever the order in which
-- clients take it, with any timeouts, and give it back, and however time passes between: as long as no
-- call is interrupted and no lock runs out while a client holds it, at most one client holds it.
pub one_holder :
    (default_timeout plan : ℕ) (start s : System) (t u : ℕ)
    → IsStart plan start
    → (r : Calls default_timeout plan start s) → AreInTime r
    → s.phase t ≡ holding
    → s.phase u ≡ holding
    → t ≡ u
one_holder d plan start s t u i r in_time h k =
    let x = Calls-IsExclusive r i in_time in x.one t u h k

-- `set_all_tiers`, the second half of an acquisition
abbrev pub with_lock : ℕ → Option ℕ → World → World
with_lock plan timeout w = record w { locks = acquired_lock plan timeout w.now ∷ w.locks }

-- One half of an acquisition by one client
pub data Half (plan : ℕ) (s s' : System) : Type 0 where
  read_free :
      (t : ℕ)
      → s.phase t ≡ idle
      → is_locked plan s.world ≡ false
      → s' ≡ record { world = s.world; phase = now_in found_free t s.phase }
      → Half plan s s'
  write :
      (t : ℕ) (timeout : Option ℕ)
      → s.phase t ≡ found_free
      → s' ≡ record { world = with_lock plan timeout s.world; phase = now_in holding t s.phase }
      → Half plan s s'

pub data Halves (plan : ℕ) (start : System) : System → Type 0 where
  begin : Halves plan start start
  then_half : {s s' : System} → Halves plan start s → Half plan s s' → Halves plan start s'

-- The two halves, with any timeout, one right after the other are the call, and where another
-- client's halves come between them, from a start where no client holds the lock of the plan and it
-- is free, any two clients get to hold it both.
pub two_holders :
    (plan : ℕ) (timeout : Option ℕ) (start : System) (t u : ℕ)
    → IsStart plan start
    → t ≢ u
    → (acquire_subscription_plan_lock plan timeout start.world
        ≡ (ok true, with_lock plan timeout start.world))
      × ((s : System) × Halves plan start s × (s.phase t ≡ holding) × (s.phase u ≡ holding))
unfolding acquire_subscription_plan_lock
two_holders plan timeout start t u i ne =
    let s1 : System = record { world = start.world; phase = now_in found_free t start.phase } in
    let s2 : System = record { world = start.world; phase = now_in found_free u s1.phase } in
    let s3 : System = record {
      world = with_lock plan timeout start.world;
      phase = now_in holding t s2.phase;
    } in
    let s4 : System = record {
      world = with_lock plan timeout s3.world;
      phase = now_in holding u s3.phase;
    } in
    let a1 : Half plan start s1 = read_free t (i.none_holds t) i.free refl in
    let a2 : Half plan s1 s2 = read_free u (ground (arith, i.none_holds u)) i.free refl in
    let a3 : Half plan s2 s3 = write t timeout (ground arith) refl in
    let a4 : Half plan s3 s4 = write u timeout (ground arith) refl in
    (
      ground (arith, i.free),
      (
        s4,
        then_half (then_half (then_half (then_half begin a1) a2) a3) a4,
        ground arith,
        ground arith,
      ),
    )
