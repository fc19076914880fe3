-- ===== src/Examples/Reviews.antt =====
-- The review of a candidate with its sources, a projection, and the name of a directory.
use Prim.Native.Char.{code}
use Prim.Native.String.{String}
use fetch_bilibili.Prelude.{
  ℕ, leb, ◌≡◌, refl, true, false, ◌&&◌, Option, none, some, List, [], ◌∷◌, map, first, ◌⊎◌,
  if◌then◌else◌,
}
use fetch_bilibili.Prelude.Int.{pos}
use fetch_bilibili.Prelude.Sort.{sort_by, insert_by}
use fetch_bilibili.Repo.Models.{
  CandidateCreator, CandidateCreatorSource, CandidateStatus, reviewing, blocked, downloaded,
  out_of_print,
}
use fetch_bilibili.World.{Error, duplicate_key, ok, err, World, call}
use fetch_bilibili.Repo.CandidateDetails.{
  same_key, dedupe_into, dedupe_candidate_sources, replace_sources, insert_sources, transaction,
  begin,
}
use fetch_bilibili.Repo.CandidateDetails.Dedupe.{last_with, unique, owned, dedupe_keeps_last}
use fetch_bilibili.Repo.CandidateDetails.Replaced.{AllOrNone, replace_sources-AllOrNone}
use fetch_bilibili.Repo.CandidateDetails.Answered.{apart, replace_sources_succeeds}
use fetch_bilibili.Discovery.Service.{Service}
use fetch_bilibili.Discovery.Service.Transitions.{
  Step, approve_it, ignore_it, review_it, act, run, status_of, review_steps, final_status_stays,
}
use fetch_bilibili.Discovery.Keywords.{Texts, runtime_keywords}
use fetch_bilibili.Discovery.Keywords.Selection.{IsSelection, runtime_keywords-IsSelection}
use fetch_bilibili.Library.Exporter.{CreatorSnapshot}
use fetch_bilibili.Library.Projector.{
  FileInfo, Manifests, add_items, collect_projected_videos, manifests, empty_manifests,
}
use fetch_bilibili.Library.Projector.Counts.{Agrees, manifests_agree}
use fetch_bilibili.Library.Names.{Unicode, creator_directory_name}
use fetch_bilibili.Library.Names.Directory.{IsDirectory, creator_directory_name-IsDirectory}
use fetch_bilibili.Examples.Store.{calm, full_store}

abbrev pub candidate : ℕ → CandidateStatus → CandidateCreator
candidate id s = record {
  id = id;
  platform = "bilibili";
  uid = "7";
  name = "d";
  avatar_url = "";
  profile_url = "";
  follower_count = pos 10;
  status = s;
  score = pos 5;
  score_version = "v1";
  last_discovered_at = 1;
  last_scored_at = 1;
  approved_at = 0;
  ignored_at = 0;
  blocked_at = 0;
  created_at = 1;
  updated_at = 1;
}

abbrev pool_store : World
pool_store = record full_store { candidates = candidate 1 reviewing ∷ candidate 2 blocked ∷ [] }

abbrev source : String → ℕ → CandidateCreatorSource
source value weight = record {
  id = 0;
  candidate_creator_id = 0;
  source_type = "keyword";
  source_value = value;
  source_label = "";
  weight = pos weight;
  detail_json = "";
  created_at = 0;
}

-- Two sources share their key.
abbrev sources : List CandidateCreatorSource
sources = source "a" 1 ∷ source "b" 2 ∷ source "a" 3 ∷ []

dedupe_keeps_last_example :
    (unique (dedupe_candidate_sources 1 sources) ≡ true)
    × ((key : String)
        → first (same_key key) (dedupe_candidate_sources 1 sources)
          ≡ last_with key none (map (owned 1) sources))
dedupe_keeps_last_example = dedupe_keeps_last 1 sources

-- Under a collation that takes all texts for the same, the second source is refused.
abbrev blurred : World
blurred = record pool_store { outside = record calm { same_text = λ s t. true } }

replace_sources_succeeds_example : (replace_sources 1 sources blurred).0 ≡ (
    if apart blurred.outside (dedupe_candidate_sources 1 sources) then ok tt else err duplicate_key)
replace_sources_succeeds_example = replace_sources_succeeds 1 sources blurred (λ n. refl) refl

-- Texts that are compared exactly are apart.
apart_sources : apart pool_store.outside (dedupe_candidate_sources 1 sources) ≡ true
unfolding dedupe_candidate_sources dedupe_into
apart_sources = refl

replace_sources-AllOrNone_example :
    AllOrNone 9
      (dedupe_candidate_sources 9 sources)
      pool_store
      (replace_sources 9 sources pool_store)
replace_sources-AllOrNone_example = replace_sources-AllOrNone 9 sources pool_store

-- There is no such candidate, so that the foreign key refuses the first row.
no_such_candidate : (replace_sources 9 sources pool_store).0 ≡ err Error.no_parent
unfolding replace_sources transaction begin insert_sources dedupe_candidate_sources dedupe_into call
no_such_candidate = refl

abbrev service : Service
service = record {
  has_candidates = true;
  has_creators = true;
  has_fetcher = true;
  auto_enqueue_fetch_on_approve = true;
  creators = record { has_resolver = false; has_publisher = true };
  fetcher = record { has_publisher = true };
}

review_steps_example :
    (u : CandidateStatus) × (status_of 1 (act service (approve_it 1) pool_store).candidates
      ≡ some u)
    × ((u ≡ reviewing) ⊎ Step reviewing u)
review_steps_example = review_steps service (approve_it 1) 1 reviewing pool_store refl

final_status_stays_example :
    status_of 2 (run service (review_it 2 ∷ approve_it 2 ∷ ignore_it 2 ∷ []) pool_store).candidates
    ≡ some blocked
final_status_stays_example =
    final_status_stays service (review_it 2 ∷ approve_it 2 ∷ ignore_it 2 ∷ []) 2 blocked pool_store
      refl refl

abbrev lower_case : Unicode
lower_case = record {
  is_letter = λ c. leb 97 (code c) && leb (code c) 122;
  is_digit = λ c. false;
  trim_space = λ s. s;
}

creator_directory_name-IsDirectory_example :
    IsDirectory lower_case (creator_directory_name lower_case "x" "-a b!")
creator_directory_name-IsDirectory_example =
    creator_directory_name-IsDirectory lower_case "x" "-a b!" refl refl

abbrev snapshot : CreatorSnapshot
snapshot = record {
  platform = "bilibili";
  uid = "7";
  name = "d";
  status = "active";
  follower_count = pos 10;
  videos =
      record {
        video_id = "BV1";
        title = "a";
        state = downloaded;
        publish_time = 5;
        out_of_print_at = 0;
        stable_at = 0;
        view_count = pos 1;
        favorite_count = pos 1;
        file_path = "/data/BV1.mp4";
        size_bytes = pos 0;
      }
      ∷ record {
        video_id = "BV2";
        title = "b";
        state = out_of_print;
        publish_time = 6;
        out_of_print_at = 8;
        stable_at = 0;
        view_count = pos 1;
        favorite_count = pos 1;
        file_path = "/data/BV2.mp4";
        size_bytes = pos 20;
      }
      ∷ [];
}

abbrev stat : String → Option FileInfo
stat path = some (record { is_dir = false; size = pos 30 })

abbrev join : List String → String
join parts = "BV.mp4"

abbrev both : Manifests
both = add_items join (collect_projected_videos stat snapshot) (empty_manifests 9 "7_d" snapshot)

written : manifests join stat 9 "7_d" snapshot ≡ some both
unfolding manifests collect_projected_videos sort_by insert_by
written = refl

manifests_agree_example : Agrees both
manifests_agree_example = manifests_agree join stat 9 "7_d" snapshot both written

abbrev texts : Texts
texts = record { trim = λ s. s; contains = λ s t. false }

runtime_keywords-IsSelection_example :
    IsSelection texts
      (pos 2)
      ("a" ∷ "" ∷ "a" ∷ "b" ∷ "c" ∷ [])
      (runtime_keywords texts (pos 2) ("a" ∷ "" ∷ "a" ∷ "b" ∷ "c" ∷ []))
runtime_keywords-IsSelection_example =
    runtime_keywords-IsSelection texts (pos 2) ("a" ∷ "" ∷ "a" ∷ "b" ∷ "c" ∷ [])
