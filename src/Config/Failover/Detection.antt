-- ===== src/Config/Failover/Detection.antt =====
-- When the reconciler sees a failover.
use dds.Base.{
  ℕ, ◌+◌, String, ◌==◌, ◌≡◌, refl, ap, ◌∙◌, true, false, some, List, [], ◌∷◌, arith, length,
  Bool-cases, inl, inr, if◌then◌else◌,
}
use dds.Config.Failover.{
  Detector, new_detector, invalidate, Answer, change_of, reconcile_round, rounds, reconciler,
}

-- how often two neighbours differ
unfoldable pub switches : String → List String → ℕ
switches ip [] = 0
switches ip (next ∷ ips) = if ip == next then switches next ips else switches next ips + 1

-- the first Sentinel answers each round with its address, and the others anything
abbrev pub answers_of : List (String × List Answer) → List (List Answer)
answers_of [] = []
answers_of ((ip, others) ∷ rest) = (Answer.address (some ip) ∷ others) ∷ answers_of rest

abbrev pub addresses : List (String × List Answer) → List String
addresses [] = []
addresses ((ip, others) ∷ rest) = ip ∷ addresses rest

abbrev seen : String → List String → Detector
seen ip reasons = record { last_ip = some ip; invalidations = reasons }

module _ (ip next : String) (others : List Answer) (reasons : List String) where
  abbrev next_round : Detector
  next_round = reconcile_round (Answer.address (some next) ∷ others) (seen ip reasons)

  stays : (ip == next) ≡ true → next_round ≡ seen next reasons
  unfolding reconcile_round invalidate
  stays same = rw same refl

  changes : (ip == next) ≡ false → next_round ≡ seen next (change_of ip next ∷ reasons)
  unfolding reconcile_round invalidate
  changes apart = rw apart refl

rounds-switches :
    (all : List (String × List Answer)) (ip : String) (reasons : List String)
    → length (rounds (answers_of all) (seen ip reasons)).invalidations
      ≡ length reasons + switches ip (addresses all)
unfolding switches
rounds-switches [] ip reasons = omega arith
rounds-switches ((next, others) ∷ rest) ip reasons =
    let later = λ (d : Detector). length (rounds (answers_of rest) d).invalidations in
    elim (Bool-cases (ip == next)) [
      | inl same ↦
          ap later (stays ip next others reasons same) ∙ rw same (rounds-switches rest next reasons)
      | inr apart ↦
          ap later (changes ip next others reasons apart)
          ∙ rw apart (omega (arith, rounds-switches rest next (change_of ip next ∷ reasons)))
    ]

-- If the first Sentinel answers in every round, the pools are disconnected once for each round in which its
-- address is not that of the round before, and never else.
pub each_failover_is_seen :
    (service ip : String) (others : List Answer) (all : List (String × List Answer))
    → (service == "") ≡ false
    → length (reconciler service (answers_of ((ip, others) ∷ all)) new_detector).invalidations
      ≡ switches ip (addresses all)
unfolding reconciler reconcile_round
each_failover_is_seen service ip others all e = rw e (omega (arith, rounds-switches all ip []))
