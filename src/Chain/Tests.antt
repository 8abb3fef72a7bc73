-- ===== src/Chain/Tests.antt =====
-- Records of the chain, and the theorems at them.
use win_validator.Base.{
  ◌≡◌, refl, Bool, [], true, false, not, ◌||◌, none, some, codes, pos, ltb_ℤ, int_of, arith,
}
use win_validator.Chain.{
  Records, Writes, chain_length, candidate_depth, record_chain, rebake_source,
}
use win_validator.Chain.Newest.{AreOlder, chain_length-record_chain}
use win_validator.Chain.Choice.{Chooses, rebake_source-Chooses}

abbrev records : Records
records = record {
  chain = some (record { mtime = 5; depth = some (pos 3) });
  mirror = some (record { mtime = 5; depth = none });
  markers = [];
  sidecar = some (some (codes "0\n"));
}

-- The record beside the golden refuses to be written, and to be removed.
abbrev writes : Writes
writes = record {
  mirror = true;
  chain = false;
  removes = false;
  renames = true;
  touches = true;
  marker_name = codes "golden-base.candidate-7.qcow2.chain.unrecorded";
  built = 4;
}

before_it : chain_length (pos 4) records ≡ pos 3
unfolding chain_length
before_it = refl

after_it : chain_length (pos 4) (record_chain (pos 4) writes 9 records) ≡ pos 0
unfolding chain_length record_chain candidate_depth int_of
after_it = refl

-- Nothing takes the depth but the marker: the touch decides, and a blank sidecar reads as the bound.
abbrev refusing : Bool → Writes
refusing touches = record writes { mirror = false; touches = touches }

marked : chain_length (pos 4) (record_chain (pos 4) (refusing true) 9 records) ≡ pos 0
unfolding chain_length record_chain candidate_depth int_of
marked = refl

not_touched : chain_length (pos 4) (record_chain (pos 4) (refusing false) 9 records) ≡ pos 3
unfolding chain_length record_chain candidate_depth int_of
not_touched = refl

blank :
    let r = record records { sidecar = some (some []) } in
    (candidate_depth (pos 4) r.sidecar ≡ pos 0)
    × (chain_length (pos 4) (record_chain (pos 4) (refusing true) 9 r) ≡ pos 4)
unfolding chain_length record_chain candidate_depth int_of
blank = (refl, refl)

older : AreOlder 9 records
older = (omega arith, omega arith, tt)

chain_length-record_chain_example :
    chain_length (pos 4) (record_chain (pos 4) writes 9 records)
    ≡ candidate_depth (pos 4) records.sidecar
chain_length-record_chain_example = chain_length-record_chain (pos 4) writes 9 records older refl

rebake_source-Chooses_example :
    Chooses
      (false || not (ltb_ℤ (pos 4) (pos 4)))
      true
      true
      (rebake_source false true true (pos 4) (pos 4))
rebake_source-Chooses_example = rebake_source-Chooses false true true (pos 4) (pos 4)
