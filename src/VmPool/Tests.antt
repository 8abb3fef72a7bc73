-- ===== src/VmPool/Tests.antt =====
-- Runs of the adapter, and its theorems at concrete calls.
use win_validator.Base.{
  ℕ, suc, ◌+◌, ◌*◌, ◌≡◌, ◌≢◌, ◌⊎◌, ◌↔◌, refl, false, List, [], ◌∷◌, none, some, Text, codes,
  Outcome, ok, raised, arith, leb, if◌then◌else◌,
}
use win_validator.Json.{Json, str}
use win_validator.VmPool.{
  Exc, url_error, other_os_error, query, read_verdict, agent_validate, Look, sees, warm,
  out_of_fuel, start, start_pool, stop_pool, reap, left_running,
}
use win_validator.VmPool.Warmup.{WarmAt, start_settles}

query_test :
    query (codes "/tmp/a/x.rdp") (some (record { rev = some []; scripts = some (codes "ps") }))
    ≡ (codes "name", codes "x.rdp") ∷ (codes "scripts", codes "ps") ∷ []
unfolding query
query_test = refl

reap_test : reap (ok (some 2)) ≡ left_running 2
unfolding reap
reap_test = refl

abbrev refused : ℕ → Outcome Exc Json
refused slot = raised (url_error other_os_error)

abbrev echo : List (Text × Text) → ℕ → Outcome Exc Text
echo q n = ok (codes "{}")

abbrev loads : Text → Outcome Exc Json
loads s = ok (str s)

answered : agent_validate 5 loads (ok 3) echo (codes "/tmp/x") none ≡ ok (str (codes "{}"))
unfolding agent_validate read_verdict
answered = refl

-- A worker is warm at the third look; the clock goes on two seconds a round.
abbrev clock : ℕ → ℕ
clock i = 10 + i * 2000

abbrev looks : ℕ → Look
looks i = sees (if leb 2 i then 1 else 0) false

warm_third : start 4 10 6000 clock looks ≡ (warm, ok tt, start_pool ∷ [])
unfolding start
warm_third = refl

start_settles_example :
    let (w, result, calls) = start (suc 6000) 10 6000 clock looks in
    (w ≢ out_of_fuel)
    × ((result ≡ ok tt) ↔ ((j : ℕ) × WarmAt (10 + 6000) clock looks 0 j))
    × ((result ≡ ok tt) × (calls ≡ start_pool ∷ [])
        ⊎ (result ≢ ok tt) × (calls ≡ start_pool ∷ stop_pool ∷ []))
start_settles_example =
    start_settles 6000 10 6000 clock looks (λ j. omega arith) (omega arith) (omega arith)
