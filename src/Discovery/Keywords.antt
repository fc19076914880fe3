-- ===== src/Discovery/Keywords.antt =====
-- internal/discovery/keyword_discoverer.go: which keywords a run searches for, and how the hits of
-- one page are put together. strings.TrimSpace and strings.Contains are given.
use Prim.Native.String.{String, ◌++◌ as str_append}
use package.text.Mathlib.Text.{◌==◌ as str_eq}
use fetch_bilibili.Prelude.{
  ℕ, leb, Bool, true, false, not, ◌&&◌, ◌||◌, List, [], ◌∷◌, ◌++◌, length, keep, any, if◌then◌else◌,
}
use fetch_bilibili.Prelude.Int.{ℤ, pos, negsuc, ltb_ℤ, leb_ℤ, eqb_ℤ}
use fetch_bilibili.Repo.Models.{CandidateCreator, CandidateStatus, unset, reviewing}
use fetch_bilibili.Repo.Creators.{or_default}
pub mod Selection
pub mod Aggregate
pub mod Bounds
pub mod Run
pub mod Found
pub mod Saved
pub mod Table

pub record Texts : Type 0 where
  pub trim : String → String
  pub contains : String → String → Bool

abbrev pub member_text : String → List String → Bool
member_text s ks = any (λ k. str_eq k s) ks

abbrev pub is_fresh : String → List String → Bool
is_fresh s ks = not (str_eq s "") && not (member_text s ks)

abbrev pub add_fresh : String → List String → List String
add_fresh s ks = if is_fresh s ks then ks ++ s ∷ [] else ks

-- MaxKeywordsPerRun, where there is one.
abbrev pub is_full : ℤ → List String → Bool
is_full (negsuc n) ks = false
is_full (pos n) ks = not (leb n 0) && leb n (length ks)

unfoldable pub collect_keywords : Texts → ℤ → List String → List String → List String
collect_keywords t limit ks [] = ks
collect_keywords t limit ks (raw ∷ rest) =
    let next = add_fresh (t.trim raw) ks in
    let all = collect_keywords t limit next rest in
    if is_fresh (t.trim raw) ks && is_full limit next then next else all

unfoldable pub runtime_keywords : Texts → ℤ → List String → List String
unfolding collect_keywords
runtime_keywords t limit keywords = collect_keywords t limit [] keywords

pub record CreatorHit : Type 0 where
  pub uid : String
  pub name : String
  pub avatar_url : String
  pub profile_url : String
  pub follower_count : ℤ
  pub signature : String

pub record VideoHit : Type 0 where
  pub uid : String
  pub creator_name : String
  pub video_id : String
  pub title : String
  pub description : String
  pub publish_time : ℕ
  pub duration : ℤ
  pub cover_url : String
  pub view_count : ℤ
  pub favorite_count : ℤ

abbrev pub newer_text : Texts → String → String → String
newer_text t base next = if str_eq (t.trim next) "" then base else t.trim next

unfoldable pub merge_creator_hit : Texts → CreatorHit → CreatorHit → CreatorHit
merge_creator_hit t base next = record {
  uid = if str_eq (t.trim base.uid) "" then t.trim next.uid else base.uid;
  name = newer_text t base.name next.name;
  avatar_url = newer_text t base.avatar_url next.avatar_url;
  profile_url = newer_text t base.profile_url next.profile_url;
  follower_count =
      if ltb_ℤ base.follower_count next.follower_count
      then next.follower_count
      else base.follower_count;
  signature = newer_text t base.signature next.signature;
}

unfoldable pub profile_url_for_uid : Texts → String → String
profile_url_for_uid t uid =
    if str_eq (t.trim uid) "" then "" else str_append "https://space.bilibili.com/" (t.trim uid)

abbrev pub contains_any : Texts → String → List String → Bool
contains_any t text values = any (λ v. t.contains text v) values

unfoldable pub keyword_risk_weight : Texts → String → ℤ
keyword_risk_weight t keyword =
    if contains_any t keyword ("补档" ∷ "重传" ∷ "未删减" ∷ "删减" ∷ [])
    then pos 15
    else if contains_any t keyword ("切片" ∷ "熟肉" ∷ "片段" ∷ "合集" ∷ [])
    then pos 12
    else if str_eq (t.trim keyword) ""
    then pos 0
    else pos 10

unfoldable pub detect_deletion_trace : Texts → String → List String
detect_deletion_trace t text =
    keep (λ marker. t.contains text marker) ("补档" ∷ "重传" ∷ "删减" ∷ "未删减" ∷ "限时" ∷ "补发" ∷ [])

-- The hits of one creator on a page. The map and the order of its keys are one list.
pub record KeywordPageHit : Type 0 where
  pub key : String
  pub keyword : String
  pub creator : CreatorHit
  pub videos : List VideoHit

abbrev pub no_creator : CreatorHit
no_creator = record {
  uid = "";
  name = "";
  avatar_url = "";
  profile_url = "";
  follower_count = pos 0;
  signature = "";
}

-- The entry of a key, changed, or a new one behind the others.
abbrev pub at_key :
    String → (KeywordPageHit → KeywordPageHit) → List KeywordPageHit → List KeywordPageHit
at_key uid f [] = f (record { key = uid; keyword = ""; creator = no_creator; videos = [] }) ∷ []
at_key uid f (h ∷ rest) =
    let later = at_key uid f rest in if str_eq h.key uid then f h ∷ rest else h ∷ later

abbrev pub with_creator : Texts → String → CreatorHit → List KeywordPageHit → List KeywordPageHit
with_creator t keyword c items =
    if str_eq (t.trim c.uid) ""
    then items
    else at_key (t.trim c.uid)
        (λ h. record h { keyword = keyword; creator = merge_creator_hit t h.creator c }) items

abbrev pub creator_of_video : Texts → VideoHit → CreatorHit
creator_of_video t v = record no_creator {
  uid = v.uid;
  name = v.creator_name;
  profile_url = profile_url_for_uid t v.uid;
}

abbrev pub with_video : Texts → String → VideoHit → List KeywordPageHit → List KeywordPageHit
with_video t keyword v items =
    if str_eq (t.trim v.uid) ""
    then items
    else at_key (t.trim v.uid)
        (λ h. record h {
          keyword = keyword;
          creator = merge_creator_hit t h.creator (creator_of_video t v);
          videos = h.videos ++ v ∷ [];
        })
        items

unfoldable pub add_creators :
    Texts → String → List CreatorHit → List KeywordPageHit → List KeywordPageHit
unfolding merge_creator_hit
add_creators t keyword [] items = items
add_creators t keyword (c ∷ rest) items =
    add_creators t keyword rest (with_creator t keyword c items)

unfoldable pub add_videos :
    Texts → String → List VideoHit → List KeywordPageHit → List KeywordPageHit
unfolding merge_creator_hit profile_url_for_uid
add_videos t keyword [] items = items
add_videos t keyword (v ∷ rest) items = add_videos t keyword rest (with_video t keyword v items)

unfoldable pub merge_keyword_page :
    Texts → String → List CreatorHit → List VideoHit → List KeywordPageHit
unfolding add_creators add_videos
merge_keyword_page t keyword creators videos =
    add_videos t keyword videos (add_creators t keyword creators [])
