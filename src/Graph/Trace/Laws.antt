-- ===== src/Graph/Trace/Laws.antt =====
-- What is read off a trace in two parts.
use ocm_agent_v.Common.{inl, inr, String, ◌≡◌, refl, ap, List, [], ◌∷◌, ◌++◌, arith}
use ocm_agent_v.Graph.Trace.{Effect, emit, sleep, attempt, emissions, attempts, calls_and_waits}

pub emissions-append :
    (name : String) (es fs : List Effect)
    → emissions name (es ++ fs) ≡ emissions name es ++ emissions name fs
unfolding emissions
emissions-append name [] fs = refl
emissions-append name (emit n v ∷ es) fs = ground (arith, emissions-append name es fs)
emissions-append name (sleep ms ∷ es) fs = emissions-append name es fs
emissions-append name (attempt n ∷ es) fs = emissions-append name es fs

pub attempts-append : (es fs : List Effect) → attempts (es ++ fs) ≡ attempts es ++ attempts fs
unfolding attempts
attempts-append [] fs = refl
attempts-append (emit n v ∷ es) fs = attempts-append es fs
attempts-append (sleep ms ∷ es) fs = attempts-append es fs
attempts-append (attempt n ∷ es) fs = ap (λ l. n ∷ l) (attempts-append es fs)

pub calls_and_waits-append :
    (es fs : List Effect) → calls_and_waits (es ++ fs) ≡ calls_and_waits es ++ calls_and_waits fs
unfolding calls_and_waits
calls_and_waits-append [] fs = refl
calls_and_waits-append (emit n v ∷ es) fs = calls_and_waits-append es fs
calls_and_waits-append (sleep ms ∷ es) fs = ap (λ l. inr ms ∷ l) (calls_and_waits-append es fs)
calls_and_waits-append (attempt n ∷ es) fs = ap (λ l. inl n ∷ l) (calls_and_waits-append es fs)
