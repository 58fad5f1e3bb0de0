-- ===== src/Model/Candidate/Content.antt =====
-- What the digest of `internal/dkim2model/candidate.go` commits to.
use opendkim_manage_go.Prelude.{
  ℕ, ◌<◌, ◌≡◌, refl, sym, ap, ap₂, ◌∙◌, List, [], ◌++◌, map, Option, none, some, Text, not, all,
  is_empty, ok, fail_if->>-eq-ok, ◌!=◌, text_eq, if◌then◌else◌, arith,
}
use opendkim_manage_go.Prelude.Sort.{sort_func}
use opendkim_manage_go.Model.Error.{closed}
use opendkim_manage_go.Model.KeyMaterial.{
  KeyMaterial, material_tenant, material_domain, material_use, material_handle, material_algorithm,
  material_public, material_private,
}
use opendkim_manage_go.Model.Records.{Profile, Credential, Policy, validity_window}
use opendkim_manage_go.Model.Generation.{Generation}
use opendkim_manage_go.Model.Generation.Order.{
  compare_handles, compare_profiles, compare_policies, compare_materials,
}
use opendkim_manage_go.Model.Generation.Reads.{key_materials}
use opendkim_manage_go.Model.Candidate.{
  DigestSources, campaign_candidate_digest_domain, candidate_schema_version, write_framed,
  window_texts, write_profile, write_credential, write_policy, write_material,
  compare_digest_credentials, write_candidate_generation, candidate_content,
}
use opendkim_manage_go.Model.Candidate.Framing.{
  PrefixCode, IsShort, framed, nullable, both, rows_of, write_rows-map, write_framed-cancel,
  write_uint64-cancel, append_cancel,
}

-- What is written of a row: its texts in order, and the texts that can be absent.
abbrev pub Five : Type 0
Five = Text × (Text × (Text × (Text × Text)))

abbrev pub ProfileFacts : Type 0
ProfileFacts = Text × (Text × (Text × (Option Text × Option Text)))

abbrev pub PolicyFacts : Type 0
PolicyFacts = Text × (Text × (Text × (Text × (Text × (Text × (Text × Option Text))))))

abbrev pub MaterialFacts : Type 0
MaterialFacts = Text × (Text × Five)

-- The facts of a generation: of its handles, profiles, credentials, policies and keys, in order.
abbrev pub Facts : Type 0
Facts = List Text × (List ProfileFacts × (List Five × (List PolicyFacts × List MaterialFacts)))

abbrev pub five : PrefixCode Five
five = both framed (both framed (both framed (both framed framed)))

abbrev pub profile_code : PrefixCode ProfileFacts
profile_code = both framed (both framed (both framed (both nullable nullable)))

abbrev pub policy_code : PrefixCode PolicyFacts
policy_code =
    both framed
      (both framed (both framed (both framed (both framed (both framed (both framed nullable))))))

abbrev pub material_code : PrefixCode MaterialFacts
material_code = both framed (both framed five)

abbrev pub generation_code : PrefixCode Facts
generation_code = both (rows_of framed) (
    both (rows_of profile_code)
      (both (rows_of five) (both (rows_of policy_code) (rows_of material_code))))

abbrev pub profile_facts : DigestSources → Profile → ProfileFacts
profile_facts sources p =
    let window = window_texts sources (validity_window p) in
    (p.id, (p.domain, (p.status, (window.0, window.1))))

abbrev pub credential_facts : Credential → Five
credential_facts c = (c.profile_id, (c.algorithm, (c.selector, (c.public_spki, c.handle_id))))

abbrev pub policy_facts : Policy → PolicyFacts
policy_facts p =
    let feedback = if p.feedback_route_id != [] then some p.feedback_route_id else none in
    (
      p.tenant_id,
      (
        p.domain,
        (p.profile_use, (p.profile_id, (p.status, (p.rollout, (p.compatibility, feedback))))),
      ),
    )

abbrev pub material_facts : KeyMaterial → MaterialFacts
material_facts m = (
  material_tenant m,
  (
    material_domain m,
    (
      material_use m,
      (material_handle m, (material_algorithm m, (material_public m, material_private m))),
    ),
  ),
)

abbrev pub facts_of : DigestSources → Generation → Facts
facts_of sources g =
    let policies = map policy_facts (sort_func compare_policies g.policies) in
    let keys = map material_facts (sort_func compare_materials (key_materials g)) in
    let credentials = map credential_facts (sort_func compare_digest_credentials g.credentials) in
    let profiles = map (profile_facts sources) (sort_func compare_profiles g.profiles) in
    (
      map (λ h. h.id) (sort_func compare_handles g.handles),
      (profiles, (credentials, (policies, keys))),
    )

write_candidate_generation-facts :
    (sources : DigestSources) (g : Generation) (content : Text)
    → write_candidate_generation sources g ≡ ok content
    → content ≡ generation_code.write (facts_of sources g)
unfolding write_candidate_generation write_profile write_credential write_policy write_material
write_candidate_generation-facts sources g content h =
    let materials = sort_func compare_materials (key_materials g) in
    let (_, k) =
      fail_if->>-eq-ok (not (all (λ m. not (is_empty (material_private m))) materials)) closed _
        h in
    let handles = write_rows-map (λ h. h.id) framed.write (sort_func compare_handles g.handles) in
    let profiles =
      write_rows-map (profile_facts sources) profile_code.write
        (sort_func compare_profiles g.profiles) in
    let credentials =
      write_rows-map credential_facts five.write
        (sort_func compare_digest_credentials g.credentials) in
    let policies =
      write_rows-map policy_facts policy_code.write (sort_func compare_policies g.policies) in
    let keys = write_rows-map material_facts material_code.write materials in
    let written : _ ≡ content = ground (arith, k) in
    sym written
    ∙ ap₂ (λ s t. s ++ t) handles
        (ap₂ (λ s t. s ++ t) profiles
          (ap₂ (λ s t. s ++ t) credentials (ap₂ (λ s t. s ++ t) policies keys)))

-- What the metadata says of the generation is small enough for its framing.
pub record IsEncodable (sources : DigestSources) (operation : Text) (source : ℕ) (g : Generation)
    : Type 0 where
  pub short_operation : IsShort operation
  pub small_source : source < 18446744073709551616
  pub small_number : g.number < 18446744073709551616
  pub small_facts : generation_code.IsSmall (facts_of sources g)

-- Two candidates whose hashed content is the same, of numbers below 2 ^ 64 and with lists and texts
-- shorter than 2 ^ 32, have the same operation, source and number, and the same facts of all handles,
-- profiles, credentials, policies and keys, the private keys included.
pub candidate_content-injective :
    (sources : DigestSources) (operation other : Text) (source source' : ℕ) (g g' : Generation)
    (content content' : Text)
    → IsEncodable sources operation source g
    → IsEncodable sources other source' g'
    → write_candidate_generation sources g ≡ ok content
    → write_candidate_generation sources g' ≡ ok content'
    → candidate_content operation source g.number content
      ≡ candidate_content other source' g'.number content'
    → (operation ≡ other)
      × (source ≡ source')
      × (g.number ≡ g'.number)
      × (facts_of sources g ≡ facts_of sources g')
unfolding candidate_content
candidate_content-injective sources operation other source source' g g' content content' p q e e'
      h =
    let bare =
      append_cancel campaign_candidate_digest_domain campaign_candidate_digest_domain _ _ refl h in
    let schema = write_framed candidate_schema_version in
    let versions = append_cancel schema schema _ _ refl bare.1 in
    let sources_same =
      write_uint64-cancel source source' _ _ p.small_source q.small_source versions.1 in
    let numbers =
      write_uint64-cancel g.number g'.number _ _ p.small_number q.small_number sources_same.1 in
    let operations =
      write_framed-cancel operation other content content' p.short_operation q.short_operation
        numbers.1 in
    let facts =
      generation_code.cancel (facts_of sources g) (facts_of sources g') [] [] p.small_facts
        q.small_facts
        (ap (λ t. t ++ [])
          (sym (write_candidate_generation-facts sources g content e)
            ∙ (operations.1 ∙ write_candidate_generation-facts sources g' content' e'))) in
    (operations.0, sources_same.0, numbers.0, facts.0)
