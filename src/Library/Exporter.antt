-- ===== src/Library/Exporter.antt =====
-- internal/library/export.go, with the snapshots of internal/library/types.go.
use Prim.Native.String.{String}
use fetch_bilibili.Prelude.{
  ℕ, zero, suc, Option, none, some, List, [], ◌∷◌, ◌++◌, map, if◌then◌else◌,
}
use fetch_bilibili.Prelude.Int.{ℤ, pos, leb_ℤ}
use fetch_bilibili.Prelude.Pages.{last_key}
use fetch_bilibili.Repo.Models.{VideoState, Video, LibraryVideo, Creator}
use fetch_bilibili.Repo.Creators as Creators
use fetch_bilibili.Repo.Videos as Videos
use fetch_bilibili.Repo.Creators.{list_for_library_after}
use fetch_bilibili.Repo.Listing.{list_library_by_creator}
use fetch_bilibili.World.{Result, ok, err, World, M, next, ◌>>=◌, return}
pub mod Pages

pub record VideoSnapshot : Type 0 where
  pub video_id : String
  pub title : String
  pub state : VideoState
  pub publish_time : ℕ
  pub out_of_print_at : ℕ
  pub stable_at : ℕ
  pub view_count : ℤ
  pub favorite_count : ℤ
  pub file_path : String
  pub size_bytes : ℤ

pub record CreatorSnapshot : Type 0 where
  pub platform : String
  pub uid : String
  pub name : String
  pub status : String
  pub follower_count : ℤ
  pub videos : List VideoSnapshot

abbrev pub video_snapshot : LibraryVideo → VideoSnapshot
video_snapshot item = record {
  video_id = item.video.video_id;
  title = item.video.title;
  state = item.video.state;
  publish_time = item.video.publish_time;
  out_of_print_at = item.video.out_of_print_at;
  stable_at = item.video.stable_at;
  view_count = item.video.view_count;
  favorite_count = item.video.favorite_count;
  file_path = item.file_path;
  size_bytes = item.size_bytes;
}

abbrev pub creator_snapshot : Creator → List LibraryVideo → CreatorSnapshot
creator_snapshot c items = record {
  platform = c.platform;
  uid = c.uid;
  name = c.name;
  status = c.status;
  follower_count = c.follower_count;
  videos = map video_snapshot items;
}

unfoldable pub export_creator : ℕ → M CreatorSnapshot
unfolding Creators.find_by_id list_library_by_creator
export_creator creator_id = do
  creator ← Creators.find_by_id creator_id
  items ← list_library_by_creator creator_id
  return (creator_snapshot creator items)

-- The pages behind an id, after what is collected already. `none`: the fuel ran out.
unfoldable pub list_pages : ℕ → ℤ → ℕ → List Creator → M (Option (List Creator))
list_pages zero page_size last out = return none
list_pages (suc fuel) page_size last out = list_for_library_after last page_size >>= λ items.
    elim items [
      | [] ↦ return (some out)
      | c ∷ rest ↦ list_pages fuel page_size (last_key (λ d. d.id) c.id rest) (out ++ c ∷ rest)
    ]

abbrev pub page_size_or : ℤ → ℤ
page_size_or page_size = if leb_ℤ page_size (pos 0) then pos 100 else page_size

unfoldable pub list_creators_for_rebuild : ℕ → ℤ → M (Option (List Creator))
unfolding list_pages
list_creators_for_rebuild fuel page_size = list_pages fuel (page_size_or page_size) 0 []

unfoldable pub creator_id_for_video : ℕ → M ℕ
unfolding Videos.find_by_id
creator_id_for_video video_id = do video ← Videos.find_by_id video_id; return video.creator_id
