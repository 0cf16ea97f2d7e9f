-- ===== src/TargetRegistry/Tests.antt =====
-- A registry of two targets at work, and the theorems at concrete inputs. Its runtime leaves the case
-- of a text as it is.
use enhanced_ssh.Prelude.{
  ℕ, true, false, String, List, [], ◌∷◌, none, some, ◌≡◌, refl, get, set, length, codes,
}
use mathlib.Core.List.{Memᴰ}
use enhanced_ssh.Result.{ok, err}
use enhanced_ssh.TargetRegistry.Types.{
  TargetConfig, RegistryEntry, Runtime, TargetAuthorization, linux, allow_list_policy,
  full_access_policy, TransferPolicy, TransferAuthorization, upload_only, upload, restricted,
}
use enhanced_ssh.TargetRegistry.Index.{
  TargetRegistry, create_entry, references_of, add_references, register, create, require_target,
  is_target_alias, summaries_of, insert, precedes,
}
use enhanced_ssh.TargetRegistry.Authorize.{
  authorize, authorize_transfer, covers, authorize_timeout, allows, denied,
}
use enhanced_ssh.TargetRegistry.IndexLaws.{references-resolve}
use enhanced_ssh.TargetRegistry.Grants.{CommandGranted, authorize-CommandGranted}
use enhanced_ssh.TargetRegistry.TransferGrants.{TransferGranted, authorize_transfer-TransferGranted}

run_registry : Unit {0}
unfolding authorize_transfer covers create_entry references_of add_references register create
    require_target is_target_alias summaries_of insert precedes authorize authorize_timeout allows
    get set
run_registry = tt

abbrev runtime : Runtime
runtime = record {
  lower = λ s. s;
  is_blank = λ s. false;
  byte_length = λ s. length (codes s);
  legacy_target_id = λ alias ssh_alias. "t-0";
}

abbrev uploads : TransferPolicy
uploads = record {
  mode = upload_only;
  local_roots = "work" ∷ [];
  remote_roots = "/srv" ∷ [];
  max_file_bytes = 100;
  max_total_bytes = 1000;
  max_files = 10;
  max_timeout_ms = 8000;
}

abbrev build_host : TargetConfig ℕ
build_host = record {
  target_id = none;
  group = none;
  previous_aliases = some ("old" ∷ []);
  description = none;
  ssh_alias = "build.internal";
  connection = none;
  platform = linux;
  enabled = true;
  policy = allow_list_policy ("uptime" ∷ []) 5000;
  transfer = some uploads;
}

abbrev configs : List (String × TargetConfig ℕ)
configs =
    ("build", build_host)
    ∷ (
      "web",
      record build_host {
        target_id = some "t-1";
        previous_aliases = none;
        policy = full_access_policy 9000;
      },
    )
    ∷ []

abbrev build_entry : RegistryEntry ℕ
build_entry = create_entry runtime "build" build_host

abbrev web_entry : RegistryEntry ℕ
web_entry = create_entry runtime "web" (record build_host {
  target_id = some "t-1";
  previous_aliases = none;
  policy = full_access_policy 9000;
})

abbrev registry : TargetRegistry ℕ
registry = record {
  configs = configs;
  entries = ("build", build_entry) ∷ ("web", web_entry) ∷ [];
  references =
      ("build", build_entry)
      ∷ ("t-0", build_entry)
      ∷ ("old", build_entry)
      ∷ ("web", web_entry)
      ∷ ("t-1", web_entry)
      ∷ [];
  summaries = build_entry.target ∷ web_entry.target ∷ [];
  local_roots = ("work", "/home/work") ∷ [];
}

made : create runtime configs (("work", "/home/work") ∷ []) ≡ ok registry
unfolding run_registry
made = refl

registry_tests :
    (authorize runtime registry "build" "reboot" none
      ≡ err (denied "Command is not allowed for this target" "build"))
    × (authorize runtime registry "web" "reboot" none
        ≡ ok (record { target = web_entry.target; timeout_ms = 9000 }))
unfolding run_registry
registry_tests = (refl, refl)

abbrev permit : TargetAuthorization
permit = record { target = build_entry.target; timeout_ms = 70 }

permitted : authorize runtime registry "old" "uptime" (some 70) ≡ ok permit
unfolding run_registry
permitted = refl

authorize-CommandGranted_example : CommandGranted runtime configs "old" "uptime" (some 70) permit
authorize-CommandGranted_example =
    authorize-CommandGranted runtime configs (("work", "/home/work") ∷ []) registry "old" "uptime"
      (some 70) permit made permitted

old_name : Memᴰ "old" (references_of runtime "build" build_host)
unfolding run_registry
old_name = Memᴰ.tail (Memᴰ.tail (Memᴰ.head refl))

references-resolve_example :
    get "old" registry.references ≡ some (create_entry runtime "build" build_host)
references-resolve_example =
    references-resolve runtime configs (("work", "/home/work") ∷ []) registry "build" build_host
      "old" made (Memᴰ.head refl) old_name

abbrev transfer_permit : TransferAuthorization
transfer_permit = record {
  target = build_entry.target;
  timeout_ms = 8000;
  scope = restricted;
  local_root_path = some "/home/work";
  remote_roots = "/srv" ∷ [];
  max_file_bytes = 100;
  max_total_bytes = 1000;
  max_files = 10;
}

transfer_permitted :
    authorize_transfer runtime registry "old" upload (some "work") none ≡ ok transfer_permit
unfolding run_registry
transfer_permitted = refl

authorize_transfer-TransferGranted_example :
    TransferGranted runtime configs "old" upload (some "work") none transfer_permit
authorize_transfer-TransferGranted_example =
    authorize_transfer-TransferGranted runtime configs (("work", "/home/work") ∷ []) registry "old"
      upload (some "work") none transfer_permit made transfer_permitted
