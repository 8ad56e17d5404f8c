-- ===== src/Career/Notifications.antt =====
-- backend/src/modules/notifications/notifications.service.ts: one function for each method.
use jobs_scraper_global.Prelude.{
  ℕ, suc, String, Bool, true, false, ◌&&◌, ◌||◌, not, Option, none, some, List, [], ◌∷◌, ltb,
  if◌then◌else◌, is_some, or_else, filter, find?, first, length, take, ◌==◌, trim, show, concat,
  or_text,
}
use jobs_scraper_global.Errors.{app, not_found}
use jobs_scraper_global.Exec.{Exec, ok, err, pure, ◌>>=◌}
use jobs_scraper_global.Table.{insert, update_where, returning, delete_where}
use jobs_scraper_global.Postgres.{Postgres}
use jobs_scraper_global.Career.Store.{
  JobStatus, saved, applied, interviewing, rejected, accepted, status_eq, SavedJob, Channel,
  notification, channel_eq, job_saved, job_applied, job_status_changed, high_match, is_high_match,
  text, status_is, number, texts, NewNotification, UserNotification, Db, owned_by,
}

-- `statusLabels`.
unfoldable pub status_label : JobStatus → String
status_label saved = "Salva"
status_label applied = "Candidatura enviada"
status_label interviewing = "Em entrevista"
status_label rejected = "Não selecionada"
status_label accepted = "Aprovada"

-- `value?.trim()` and then `||`.
abbrev pub trimmed : Option String → String → String
trimmed none d = d
trimmed (some s) d = or_text (trim s) d

abbrev pub at_company : String → String → String
at_company title company = if company == "" then title else concat (title ∷ " na " ∷ company ∷ [])

-- `jobName`.
unfoldable pub job_name : Option String → Option String → String
job_name title company = at_company (trimmed title "vaga") (trimmed company "")

-- `ListNotificationsQuery`.
pub record ListQuery : Type 0 where
  pub channel : Option Channel
  pub unread_only : Bool
  pub limit : ℕ

abbrev pub is_unread : UserNotification → Bool
is_unread n = not (is_some n.read_at)

-- A channel that is left out is no condition.
abbrev pub on_channel : Option Channel → UserNotification → Bool
on_channel none n = true
on_channel (some c) n = channel_eq n.channel c

abbrev pub newer : UserNotification → UserNotification → Bool
newer a b = ltb b.created_at a.created_at

abbrev pub mine : String → Option Channel → UserNotification → Bool
mine user channel n = owned_by user n.user_id && on_channel channel n

abbrev pub mine_unread : String → Option Channel → UserNotification → Bool
mine_unread user channel n = mine user channel n && is_unread n

abbrev pub listed : String → ListQuery → UserNotification → Bool
listed user q n = mine user q.channel n && (if q.unread_only then is_unread n else true)

pub record Listing : Type 0 where
  pub notifications : List UserNotification
  pub unread_count : ℕ

-- `MatchedJob`, as far as this service reads it; `identity` is `jobNotificationIdentity(job)`.
pub record Matched : Type 0 where
  pub title : Option String
  pub job_title : Option String
  pub company : Option String
  pub match_score : Option ℕ
  pub matched_technologies : Option (List String)
  pub identity : String

abbrev pub is_text : String → Option String → Bool
is_text s none = false
is_text s (some t) = t == s

-- The test of the query in `createHighMatchIfMissing`.
abbrev pub is_match_of : String → String → UserNotification → Bool
is_match_of user entity n =
    owned_by user n.user_id
    && is_high_match n.type
    && is_text "job" n.entity_type
    && is_text entity n.entity_id

-- The notification of a status that did change.
abbrev pub status_notification : String → SavedJob → SavedJob → NewNotification
status_notification user previous next = record {
  user_id = user;
  channel = notification;
  type = if status_eq next.status applied then job_applied else job_status_changed;
  title = "Status de candidatura atualizado";
  body = concat (
      job_name next.job_title next.company
      ∷ " agora está em \""
      ∷ status_label next.status
      ∷ "\"."
      ∷ []);
  entity_type = some "job";
  entity_id = some next.id;
  metadata =
      ("jobLink", text (some next.job_link))
      ∷ ("jobTitle", text next.job_title)
      ∷ ("company", text next.company)
      ∷ ("previousStatus", status_is previous.status)
      ∷ ("status", status_is next.status)
      ∷ [];
}

unfoldable pub mark_read : String → String → Exec Db UserNotification
unfolding not_found
mark_read user id s =
    let hit = λ (n : UserNotification). n.id == id && owned_by user n.user_id in
    let set = λ (n : UserNotification). record n { read_at = some s.now } in
    let s' = record s { user_notifications = update_where hit set s.user_notifications } in
    elim (first (returning hit set s.user_notifications)) [
      | none ↦ (err (app (not_found "Notificação não encontrada")), s')
      | some n ↦ (ok n, s')
    ]

-- The number of rows that were updated.
unfoldable pub mark_all_read : String → Option Channel → Exec Db ℕ
mark_all_read user channel s =
    let hit = mine_unread user channel in
    let set = λ (n : UserNotification). record n { read_at = some s.now } in
    (
      ok (length (returning hit set s.user_notifications)),
      record s { user_notifications = update_where hit set s.user_notifications },
    )

-- The number of rows that were deleted.
unfoldable pub clear : String → Option Channel → Exec Db ℕ
clear user channel s =
    let hit = mine user channel in
    (
      ok (length (filter hit s.user_notifications)),
      record s { user_notifications = delete_where hit s.user_notifications },
    )

abbrev pub match_notification : String → Matched → ℕ → NewNotification
match_notification user job score =
    let title = trimmed job.title (trimmed job.job_title "vaga") in
    record {
      user_id = user;
      channel = notification;
      type = high_match;
      title = "Vaga com alto match encontrada";
      body = concat (
          at_company title (trimmed job.company "")
          ∷ " tem "
          ∷ show score
          ∷ "% de compatibilidade com o seu perfil."
          ∷ []);
      entity_type = some "job";
      entity_id = some job.identity;
      metadata =
          ("jobLink", text (some job.identity))
          ∷ ("jobTitle", text (some title))
          ∷ ("company", text job.company)
          ∷ ("matchScore", number score)
          ∷ ("matchedTechnologies", texts (or_else job.matched_technologies []))
          ∷ [];
    }

-- The notification of a job that is saved, or saved as applied for.
abbrev pub saved_notification : String → SavedJob → NewNotification
saved_notification user job =
    let name = job_name job.job_title job.company in
    let is_applied = status_eq job.status applied in
    record {
      user_id = user;
      channel = notification;
      type = if is_applied then job_applied else job_saved;
      title = if is_applied then "Candidatura enviada" else "Vaga salva";
      body =
          if is_applied
          then concat ("Sua candidatura para " ∷ name ∷ " foi registrada." ∷ [])
          else concat (name ∷ " foi adicionada às suas vagas salvas." ∷ []);
      entity_type = some "job";
      entity_id = some job.id;
      metadata =
          ("jobLink", text (some job.job_link))
          ∷ ("jobTitle", text job.job_title)
          ∷ ("company", text job.company)
          ∷ ("status", status_is job.status)
          ∷ [];
    }

module _ (pg : Postgres) where
  unfoldable pub list : String → ListQuery → Exec Db Listing
  list user q s = (
    ok (record {
      notifications =
          take q.limit
            (pg.order_by UserNotification newer (filter (listed user q) s.user_notifications));
      unread_count = length (filter (mine_unread user q.channel) s.user_notifications);
    }),
    s,
  )

  unfoldable pub create : NewNotification → Exec Db UserNotification
  create new s =
      let row : UserNotification = record {
        id = pg.uuid s.drawn;
        new = new;
        read_at = none;
        created_at = s.now;
      } in
      (
        ok row,
        record s { user_notifications = insert row s.user_notifications; drawn = suc s.drawn },
      )

  unfoldable pub create_for_saved_job : String → SavedJob → Exec Db UserNotification
  create_for_saved_job user job = create (saved_notification user job)

  unfoldable pub create_for_job_status_change :
      String → SavedJob → SavedJob → Exec Db (Option UserNotification)
  create_for_job_status_change user previous next =
      if status_eq previous.status next.status
      then pure none
      else do row ← create (status_notification user previous next); pure (some row)

  -- `existing ?? create(...)`.
  abbrev pub existing_or_create :
      Option UserNotification → NewNotification → Exec Db (Option UserNotification)
  existing_or_create none new = do row ← create new; pure (some row)
  existing_or_create (some n) new = pure (some n)

  unfoldable pub create_high_match_if_missing : String → Matched → Exec Db (Option UserNotification)
  create_high_match_if_missing user job s =
      let score = or_else job.match_score 0 in
      if ltb score 85 || job.identity == ""
      then (ok none, s)
      else existing_or_create (find? (is_match_of user job.identity) s.user_notifications)
          (match_notification user job score) s
