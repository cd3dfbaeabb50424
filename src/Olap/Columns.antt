-- ===== src/Olap/Columns.antt =====
-- Where `StoreEvent` of internal/ch/ch.go puts the fields of an event.
use warnly.Base.{
  ℕ, ◌≡◌, refl, Bool, not, ◌==◌, ◌||◌, some, List, [], ◌∷◌, ◌++◌, if◌then◌else◌, Bytes, text,
  filter, before_first, after_first, length, All,
}
use warnly.Query.Parse.{get_key}
use warnly.Event.Body.{EventClickhouse}
use warnly.Olap.Statement.{Arg, num, at, txt, nums, txts}
use warnly.Olap.Insert.{store_event_statement}

-- The names between the first parentheses of a statement.
abbrev is_space : ℕ → Bool
is_space c = c == b' ' || (c == b'\t' || c == b'\n')

abbrev names : Bytes → Bytes → List Bytes
names name [] = name ∷ []
names name (c ∷ cs) =
    let here = names (name ++ c ∷ []) cs in
    let next = names [] cs in if c == b',' then name ∷ next else here

abbrev pub columns : Bytes → List Bytes
columns sql = names [] (filter (λ c. not (is_space c)) (before_first b')' (after_first b'(' sql)))

abbrev pub zip : List Bytes → List Arg → List (Bytes × Arg)
zip [] args = []
zip (c ∷ cs) [] = []
zip (c ∷ cs) (a ∷ args) = (c, a) ∷ zip cs args

-- The columns that the struct's `ch` tags name, with the values of their fields.
abbrev pub tagged : EventClickhouse → List (Bytes × Arg)
tagged ev =
    (text "created_at", at ev.created_at)
    ∷ (text "sdk_version", txt ev.stored_sdk_version)
    ∷ (text "user", txt ev.stored_user)
    ∷ (text "user_email", txt ev.user_email)
    ∷ (text "user_name", txt ev.user_name)
    ∷ (text "user_username", txt ev.user_username)
    ∷ (text "primary_hash", txt ev.primary_hash)
    ∷ (text "env", txt ev.env)
    ∷ (text "event_id", txt ev.stored_event_id)
    ∷ (text "message", txt ev.stored_message)
    ∷ (text "ipv6", txt ev.ipv6)
    ∷ (text "release", txt ev.stored_release)
    ∷ (text "title", txt ev.title)
    ∷ (text "ipv4", txt ev.ipv4)
    ∷ (text "exception_frames.in_app", nums ev.exception_frames_in_app)
    ∷ (text "contexts.key", txts ev.contexts_key)
    ∷ (text "exception_frames.colno", nums ev.exception_frames_col_no)
    ∷ (text "exception_frames.abs_path", txts ev.exception_frames_abs_path)
    ∷ (text "exception_frames.lineno", nums ev.exception_frames_line_no)
    ∷ (text "exception_stacks.type", txts ev.exception_stacks_type)
    ∷ (text "exception_stacks.value", txts ev.exception_stacks_value)
    ∷ (text "tags.key", txts ev.tags_key)
    ∷ (text "exception_frames.function", txts ev.exception_frames_function)
    ∷ (text "tags.value", txts ev.tags_value)
    ∷ (text "exception_frames.filename", txts ev.exception_frames_filename)
    ∷ (text "contexts.value", txts ev.contexts_value)
    ∷ (text "gid", num ev.group_id)
    ∷ (text "pid", num ev.project_id)
    ∷ (text "level", num ev.stored_level)
    ∷ (text "type", num ev.event_type)
    ∷ (text "sdk_id", num ev.sdk_id)
    ∷ (text "platform", num ev.stored_platform)
    ∷ (text "retention_days", num ev.retention_days)
    ∷ (text "deleted", num ev.deleted)
    ∷ []

-- The statement of `StoreEvent` has as many columns as arguments, and the argument of each column
-- that a `ch` tag names is the field with this tag.
pub store_event_statement-columns :
    (ev : EventClickhouse)
    → (length (columns (store_event_statement ev).sql) ≡ length (store_event_statement ev).args)
      × All
          (λ (entry : Bytes × Arg).
            get_key entry.0
              (zip (columns (store_event_statement ev).sql) (store_event_statement ev).args)
            ≡ some entry.1)
          (tagged ev)
unfolding store_event_statement get_key
store_event_statement-columns ev = (
  refl,
  (
    refl,
    (
      refl,
      (
        refl,
        (
          refl,
          (
            refl,
            (
              refl,
              (
                refl,
                (
                  refl,
                  (
                    refl,
                    (
                      refl,
                      (
                        refl,
                        (
                          refl,
                          (
                            refl,
                            (
                              refl,
                              (
                                refl,
                                (
                                  refl,
                                  (
                                    refl,
                                    (
                                      refl,
                                      (
                                        refl,
                                        (
                                          refl,
                                          (
                                            refl,
                                            (
                                              refl,
                                              (
                                                refl,
                                                (
                                                  refl,
                                                  (
                                                    refl,
                                                    (
                                                      refl,
                                                      (
                                                        refl,
                                                        (
                                                          refl,
                                                          (
                                                            refl,
                                                            (
                                                            refl,
                                                            (refl, (refl, (refl, (refl, tt)))),
                                                            ),
                                                          ),
                                                        ),
                                                      ),
                                                    ),
                                                  ),
                                                ),
                                              ),
                                            ),
                                          ),
                                        ),
                                      ),
                                    ),
                                  ),
                                ),
                              ),
                            ),
                          ),
                        ),
                      ),
                    ),
                  ),
                ),
              ),
            ),
          ),
        ),
      ),
    ),
  ),
)
