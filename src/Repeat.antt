-- ===== src/Repeat.antt =====
-- Scripts of the services that are run a second time: each looks up what its key says of the saga, and
-- answers and acts by that.
use dds.Base.{String, ◌≡◌, ◌∙◌, refl, Bool, true, Option, some}
use dds.Base.Dict.{Dict, lookup}

-- Found in the state `k`, the saga is left by the script so that a second run adds nothing.
pub record RunsOnce {K S : Type 0} (sagas : S → Dict K) (id : String)
    (f : Option K → S → Option Bool × S) (k : Option K) (s : S) : Type 0 where
  pub same : f (lookup id (sagas (f k s).1)) (f k s).1 ≡ f k s

-- a script that changes nothing
pub unchanged :
    {K S : Type 0} {sagas : S → Dict K} {id : String} {f : Option K → S → Option Bool × S}
    {k : Option K} {s : S} (r : Option Bool)
    → lookup id (sagas s) ≡ k
    → f k s ≡ (r, s)
    → RunsOnce sagas id f k s
unchanged r e h = record { same = rw (h, e) h }

-- a script that leaves a state in which it has been done
pub settles :
    {K S : Type 0} {sagas : S → Dict K} {id : String} {f : Option K → S → Option Bool × S}
    {k : Option K} {s s' : S} (key : K)
    → f k s ≡ (some true, s')
    → lookup id (sagas s') ≡ some key
    → f (some key) s' ≡ (some true, s')
    → RunsOnce sagas id f k s
settles key h l g = record { same = rw (h, l) (g ∙ refl) }
