-- ===== src/Examples/Policy.antt =====
-- A pack of two rules that conflict, accepted and compiled with the core pack.
use git_slop.Base.{
  ℕ, replicate, ◌≡◌, refl, true, false, none, List, [], ◌∷◌, map, Text, codes, ok, sort_by,
  insert_by, member, insert_key, text_eq, text_lt, split, starts_with, trim, parse_u64,
}
use git_slop.Policy.Model.{
  Verdict, aggregate_verdict, PackRule, PackManifest, ResolvedPack, PackLock, CompiledPolicySet,
}
use git_slop.Policy.Manifest.{
  Semver, validate_manifest, valid_identifier, strict_semver, semver_lt, unsupported_applicability,
  validate_rules,
}
use git_slop.Policy.Compile.{with_core, pack_before, pack_lock, compile_packs}
use git_slop.Policy.Verdicts.{documented_verdict, aggregate_verdict-documented_verdict}
use git_slop.Policy.Conflicts.{IsCompiled, compile_packs-IsCompiled}

aggregate_verdict-documented_verdict_example :
    aggregate_verdict (Verdict.revise ∷ Verdict.reject ∷ Verdict.approve ∷ [])
    ≡ documented_verdict (Verdict.revise ∷ Verdict.reject ∷ Verdict.approve ∷ [])
aggregate_verdict-documented_verdict_example =
    aggregate_verdict-documented_verdict (Verdict.revise ∷ Verdict.reject ∷ Verdict.approve ∷ [])

abbrev pub split_rule : PackRule
split_rule = record {
  id = codes "acme.pack.split";
  text = codes "Split large files";
  applicability = codes "advise" ∷ [];
  severity = codes "warning";
  consequence = Verdict.revise;
  required_evidence = codes "scan" ∷ [];
  insufficient_evidence = Verdict.abstain;
  remediation = none;
  conflicts_with = codes "acme.pack.merge" ∷ [];
}

abbrev pub merge_rule : PackRule
merge_rule = record split_rule {
  id = codes "acme.pack.merge";
  text = codes "Merge small files";
  conflicts_with = codes "acme.pack.split" ∷ codes "acme.pack.absent" ∷ [];
}

abbrev pub acme : PackManifest
acme = record {
  schema_version = 1;
  id = codes "acme.pack";
  name = codes "Acme";
  description = codes "House rules";
  version = codes "1.0.0";
  license = codes "MIT";
  min_git_slop_version = codes "0.1.0";
  entrypoints = codes "rules.md" ∷ [];
  applicability = codes "plan" ∷ [];
  tests = [];
  rules = split_rule ∷ merge_rule ∷ [];
}

abbrev pub running : Semver
running = record { major = 0; minor = 4; patch = 2 }

abbrev pub sha_of : ℕ → Text
sha_of c = replicate 64 c

abbrev pub resolved : ResolvedPack
resolved = record {
  manifest = acme;
  content_digest = sha_of b'c';
  entrypoint_digests = record { path = codes "rules.md"; sha256 = sha_of b'e' } ∷ [];
  source_type = codes "local-directory";
  source_revision = sha_of b'c';
  built_in = false;
}

abbrev pub core : ResolvedPack
core = record resolved {
  manifest = record acme { id = codes "org.git-slop.core"; rules = [] };
  source_type = codes "built-in";
  built_in = true;
}

abbrev pub digest : List PackLock → Text
digest locks = sha_of b'd'

-- The conflict is declared twice and listed once.
abbrev compiled : CompiledPolicySet
compiled = record {
  schema_version = 1;
  resolution_digest = sha_of b'd';
  packs = map pack_lock (core ∷ resolved ∷ []);
  rules = split_rule ∷ merge_rule ∷ [];
  conflicts =
      record { left_rule_id = codes "acme.pack.merge"; right_rule_id = codes "acme.pack.split" }
      ∷ [];
}

acme_compiles : compile_packs (ok core) digest (resolved ∷ []) ≡ ok compiled
unfolding compile_packs sort_by insert_by member insert_key text_eq text_lt
acme_compiles = refl

acme_is_accepted : validate_manifest running acme false ≡ ok tt
unfolding validate_manifest valid_identifier split starts_with text_eq trim strict_semver parse_u64
    semver_lt unsupported_applicability member validate_rules insert_key
acme_is_accepted = refl

compile_packs-IsCompiled_example :
    (complete : List ResolvedPack) × (with_core (resolved ∷ []) (ok core) ≡ ok complete)
    × IsCompiled (sort_by pack_before complete) compiled
    × (compiled.resolution_digest ≡ digest compiled.packs)
compile_packs-IsCompiled_example =
    compile_packs-IsCompiled (ok core) digest (resolved ∷ []) compiled acme_compiles
