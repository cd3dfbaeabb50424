-- ===== src/Project/Projects.antt =====
-- The methods of internal/svc/project/project.go on projects and teams.
use warnly.Base.{
  ℕ, not, ◌&&◌, ◌||◌, List, [], ◌∷◌, ◌++◌, map, if◌then◌else◌, ◌==◌, Bytes, text, bytes_eq,
  is_empty, find?, filter, any, pure, fail, ◌>>=◌, ◌>>◌, ◌*◌, ◌^◌,
}
use warnly.Base.Int.{pos}
use warnly.Db.Tables.{Project, Team, Teammate, not_found, project_not_found, read_clock}
use warnly.Db.Statements.{get_project, list_teams}
use warnly.Db.Board.{list_projects_like, insert_project, delete_project_row, list_teammates_of}
use warnly.Service.Alerts.{has_access}
use warnly.Event.Row.{platform_by_name}
use warnly.Project.Types.{
  ProjectService, EventsPerHour, TagCount, TagValueCount, P, store, team_not_found, no_random_id,
  not_a_teammate, from_store, ask, required, check_that, before, read_duration, parse_time_range,
}

pub record CreateProjectRequest : Type 0 where
  pub platform : Bytes
  pub project_name : Bytes
  pub team_id : ℕ

pub record ProjectInfo : Type 0 where
  pub name : Bytes
  pub dsn : Bytes
  pub platform : Bytes
  pub id : ℕ

pub record ListProjectsCriteria : Type 0 where
  pub name : Bytes
  pub team_id : ℕ

-- A project with the events that the service puts into it.
pub record ProjectEvents : Type 0 where
  pub project : Project
  pub events : List EventsPerHour

pub record ListProjectsResult : Type 0 where
  pub projects : List ProjectEvents
  pub teams : List Team

pub record ListTagValuesRequest : Type 0 where
  pub user_id : ℕ
  pub tag : Bytes
  pub project_name : Bytes
  pub period : Bytes
  pub start : Bytes
  pub end : Bytes
  pub limit : ℕ

unfoldable pub extract_team_ids : List Team → List ℕ
extract_team_ids teams = map (λ (t : Team). t.id) teams

-- No team id, 0, lets every team through.
unfoldable pub filter_team_ids : List Team → ℕ → List ℕ
filter_team_ids teams team_id =
    map (λ (t : Team). t.id)
      (filter (λ (t : Team). not (not (team_id == 0) && not (t.id == team_id))) teams)

-- The loop of `extractProjectIDs`, with the ids so far: the first project of the name stands alone.
unfoldable pub project_ids : List Project → Bytes → List ℕ → List ℕ
project_ids [] name ids = ids
project_ids (p ∷ ps) name ids =
    let rest = project_ids ps name (ids ++ p.id ∷ []) in
    if not (is_empty name) && bytes_eq p.name name then p.id ∷ [] else rest

unfoldable pub extract_project_ids : List Project → Bytes → List ℕ
unfolding project_ids
extract_project_ids projects name = project_ids projects name []

-- `mapEventsByProjectID` and `assignEventsToProjects`: what a project finds in the map.
unfoldable pub assign_events_to_projects : List EventsPerHour → List Project → List ProjectEvents
assign_events_to_projects events projects =
    map
      (λ (p : Project). record {
        project = p;
        events = filter (λ (e : EventsPerHour). e.project_id == p.id) events;
      })
      projects

unfoldable pub one_day : ℕ
one_day = 24 * 3600 * 10 ^ 9

-- An empty period is a day.
unfoldable pub or_default : Bytes → Bytes
or_default period = if is_empty period then text "24h" else period

module _ (svc : ProjectService) where
  unfoldable pub project_dsn : ℕ → Bytes → Bytes
  project_dsn project_id key =
      svc.public_scheme
      ++ text "://"
      ++ key
      ++ text "@"
      ++ svc.public_base_url
      ++ text "/ingest"
      ++ text "/"
      ++ svc.itoa project_id

  unfoldable pub new_nano_id : P Bytes
  new_nano_id db = required (svc.nano_id db.statements) no_random_id db

  unfoldable pub create_project : CreateProjectRequest → ℕ → P ProjectInfo
  unfolding platform_by_name project_dsn
  create_project req user_id = do
    teams ← from_store (list_teams svc.env user_id)
    check_that (has_access teams req.team_id) team_not_found
    key ← new_nano_id
    now ← from_store (read_clock svc.env)
    id ← from_store (
        insert_project svc.env (record {
          id = 0;
          name = req.project_name;
          team_id = req.team_id;
          created_at = now;
          user_id = user_id;
          platform = platform_by_name req.platform;
          key = key;
        }))
    pure (record {
      id = id;
      name = req.project_name;
      dsn = project_dsn id key;
      platform = req.platform;
    })

  -- `GetProject`, whose steps `DeleteProject` repeats.
  unfoldable pub get_user_project : ℕ → ℕ → P Project
  get_user_project project_id user_id = do
    teams ← from_store (list_teams svc.env user_id)
    project ← from_store (get_project svc.env project_id)
    check_that (has_access teams project.team_id) (store project_not_found)
    pure project

  unfoldable pub delete_project : ℕ → ℕ → P (Unit {0})
  unfolding get_user_project
  delete_project project_id user_id = do
    project ← get_user_project project_id user_id
    from_store (delete_project_row svc.env project_id)

  -- With no team there is no statement on projects, and with no project no question for events.
  unfoldable pub events_of : List Project → P (List ProjectEvents)
  unfolding extract_project_ids assign_events_to_projects one_day
  events_of [] = pure []
  events_of (p ∷ ps) = do
    now ← from_store (read_clock svc.env)
    events ← ask (
        svc.analytics.calculate_events (record {
          from = before (pos one_day) now;
          to = now;
          project_ids = extract_project_ids (p ∷ ps) [];
          group_ids = [];
        }))
    pure (assign_events_to_projects events (p ∷ ps))

  unfoldable pub list_team_projects : ListProjectsCriteria → List Team → P ListProjectsResult
  unfolding filter_team_ids events_of
  list_team_projects criteria [] = pure (record { projects = []; teams = [] })
  list_team_projects criteria (t ∷ ts) = do
    projects ← from_store (
        list_projects_like svc.env svc.like (filter_team_ids (t ∷ ts) criteria.team_id)
          criteria.name)
    listed ← events_of projects
    pure (record { projects = listed; teams = t ∷ ts })

  unfoldable pub list_user_projects : ListProjectsCriteria → ℕ → P ListProjectsResult
  unfolding list_team_projects
  list_user_projects criteria user_id = do
    teams ← from_store (list_teams svc.env user_id)
    list_team_projects criteria teams

  unfoldable pub some_teams : List Team → P (List ℕ)
  unfolding extract_team_ids
  some_teams [] = fail (store not_found)
  some_teams (t ∷ ts) = pure (extract_team_ids (t ∷ ts))

  -- The request's project is not read.
  unfoldable pub list_teammates : ℕ → P (List Teammate)
  unfolding some_teams
  list_teammates user_id = do
    teams ← from_store (list_teams svc.env user_id)
    team_ids ← some_teams teams
    from_store (list_teammates_of svc.env team_ids)

  unfoldable pub validate_teammate : List Teammate → ℕ → P (Unit {0})
  validate_teammate teammates user_id =
      check_that (any (λ (t : Teammate). t.id == user_id) teammates) not_a_teammate

  unfoldable pub search_project : Bytes → ℕ → P Project
  unfolding some_teams
  search_project name user_id = do
    teams ← from_store (list_teams svc.env user_id)
    team_ids ← some_teams teams
    projects ← from_store (list_projects_like svc.env svc.like team_ids name)
    required (find? (λ (p : Project). bytes_eq p.name name) projects) (store project_not_found)

  unfoldable pub ids_of_teams : List Team → P (List ℕ)
  unfolding extract_team_ids
  ids_of_teams [] = pure []
  ids_of_teams (t ∷ ts) = do
    projects ← from_store (list_projects_like svc.env svc.like (extract_team_ids (t ∷ ts)) [])
    pure (map (λ (p : Project). p.id) projects)

  -- `getProjectIDs`.
  unfoldable pub get_project_ids : ℕ → Bytes → P (List ℕ)
  unfolding search_project ids_of_teams
  get_project_ids user_id name =
      if not (is_empty name)
      then (do project ← search_project name user_id; pure (project.id ∷ []))
      else (do teams ← from_store (list_teams svc.env user_id); ids_of_teams teams)

  -- `getTimeRangeFromPeriod`.
  unfoldable pub time_range_from_period : Bytes → P (ℕ × ℕ)
  unfolding or_default
  time_range_from_period period = do
    dur ← read_duration (or_default period)
    now ← from_store (read_clock svc.env)
    pure (before dur now, now)

  unfoldable pub list_popular_tags : ℕ → Bytes → Bytes → ℕ → P (List TagCount)
  unfolding get_project_ids time_range_from_period
  list_popular_tags user_id name period limit = do
    project_ids ← get_project_ids user_id name
    range ← time_range_from_period period
    ask (
        svc.analytics.list_popular_tags (record {
          from = range.0;
          to = range.1;
          tag = [];
          project_ids = project_ids;
          limit = limit;
        }))

  -- The period where there is one, or where there is no range either; and the range.
  unfoldable pub tag_range : ListTagValuesRequest → P (ℕ × ℕ)
  unfolding time_range_from_period
  tag_range req =
      if not (is_empty req.period) || is_empty req.start && is_empty req.end
      then time_range_from_period req.period
      else parse_time_range svc req.start req.end

  unfoldable pub list_tag_values : ListTagValuesRequest → P (List TagValueCount)
  unfolding get_project_ids tag_range
  list_tag_values req = do
    project_ids ← get_project_ids req.user_id req.project_name
    range ← tag_range req
    ask (
        svc.analytics.list_tag_values (record {
          from = range.0;
          to = range.1;
          tag = req.tag;
          project_ids = project_ids;
          limit = req.limit;
        }))
