-- ===== src/Creator/Service/Asking.antt =====
-- What the creator service asks and announces touches no table.
use Prim.Native.String.{String}
use package.text.Mathlib.Text.{◌==◌ as str_eq}
use fetch_bilibili.Prelude.{ℕ, suc, ◌==◌, not, ◌&&◌, Option, none, some, first}
use fetch_bilibili.Repo.Models.{Creator}
use fetch_bilibili.World.{no_uid_or_name, no_resolver, Result, ok, err, World}
use fetch_bilibili.Invariants.{
  Preserves, IsAboutTables, Preserves-return, Preserves-throw, Preserves-bind, Preserves-if,
  Preserves-attempt, Preserves-call, Preserves-now, Preserves-publish,
}
use fetch_bilibili.Repo.Creators.{or_default, find_by_id, found}
use fetch_bilibili.Creator.Service.{
  Service, Entry, trim, resolve_uid, resolve_name, resolve_name_by_uid, name_or_none, named,
  identify, prepare_creator, publish_creator_changed, of_entry,
}

module _ {P : World → Type 0} (t : IsAboutTables P) where
  pub publish-Preserves : (s : Service) (c : Creator) → Preserves P (publish_creator_changed s c)
  unfolding publish_creator_changed
  publish-Preserves s c =
      Preserves-if P (not s.has_publisher) _ _ (Preserves-return P tt)
        (Preserves-bind P _ _ (Preserves-now t) λ at. Preserves-publish t _)

  ask :
      {A : Type 0} (f : World → Result A)
      → Preserves P (λ w. (f w, record w { calls = suc w.calls }))
  ask f = record { holds = λ w g. t.no_calls w (suc w.calls) g }

  look : {A : Type 0} (f : World → Result A) → Preserves P (λ w. (f w, w))
  look f = record { holds = λ w g. g }

  pub trim-Preserves : (s : String) → Preserves P (trim s)
  trim-Preserves s = look (λ w. ok (w.outside.trim s))

  pub resolve_name_by_uid-Preserves :
      (s : Service) (uid : String) → Preserves P (resolve_name_by_uid s uid)
  unfolding resolve_name_by_uid resolve_name
  resolve_name_by_uid-Preserves s uid =
      Preserves-if P (not s.has_resolver) _ _ (Preserves-return P "") (
        Preserves-bind P _ _ (trim-Preserves uid) λ u.
          Preserves-if P (str_eq u "") _ _ (Preserves-return P "") (
            Preserves-bind P _ _
              (Preserves-attempt P _ (ask (λ w. w.outside.resolve_name w.calls u))) named))
    where
      named : (r : Result String) → Preserves P (name_or_none r)
      named (ok name) = trim-Preserves name
      named (err e) = Preserves-return P ""

  pub prepare_creator-Preserves : (s : Service) (e : Entry) → Preserves P (prepare_creator s e)
  unfolding prepare_creator resolve_uid
  prepare_creator-Preserves s e = Preserves-bind P _ _ (trim-Preserves e.uid) λ uid.
      Preserves-bind P _ _ (trim-Preserves e.name) λ name.
        Preserves-bind P _ _ (trim-Preserves e.platform) λ platform.
          Preserves-bind P _ _ (trim-Preserves e.status) λ status.
            Preserves-if P (str_eq uid "" && str_eq name "") _ _ (Preserves-throw P no_uid_or_name)
              (Preserves-bind P _ _ (identified uid name) λ who.
                Preserves-bind P _ _
                  (Preserves-if P (str_eq who.1 "") _ _ (resolve_name_by_uid-Preserves s who.0)
                    (Preserves-return P who.1))
                  λ name'. Preserves-return P (
                    of_entry (or_default "bilibili" platform) who.0 name'
                      (or_default "active" status)))
    where
      identified : (uid name : String) → Preserves P (identify s uid name)
      identified uid name =
          Preserves-if P (not (str_eq uid "")) _ _ (Preserves-return P (uid, name)) (
            Preserves-if P (not s.has_resolver) _ _ (Preserves-throw P no_resolver) (
              Preserves-bind P _ _ (ask (λ w. w.outside.resolve_uid w.calls name))
                λ found. Preserves-return P (found.0, or_default name found.1)))

  pub named-Preserves : (s : Service) (c : Creator) → Preserves P (named s c)
  named-Preserves s c = Preserves-bind P _ _ (trim-Preserves c.name) λ name.
      Preserves-if P (str_eq name "") _ _
        (Preserves-bind P _ _ (resolve_name_by_uid-Preserves s c.uid)
          λ n. Preserves-return P (record c { name = n }))
        (Preserves-return P c)

  pub find_by_id-Preserves : (n : ℕ) → Preserves P (find_by_id n)
  unfolding find_by_id
  find_by_id-Preserves n =
      Preserves-call t _ (record { holds = λ w p. same (first (λ c. c.id == n) w.creators) w p })
    where
      same : (o : Option Creator) (w : World) → P w → P (found o w).1
      same none w p = p
      same (some c) w p = p
