-- ===== src/Log/Conf/Variable/Kept.antt =====
-- The variable "logs" of src/log.cpp: reading texts into it one after the other.
use ye_cc_server.Prelude.{
  ℕ, ◌≡◌, refl, ◌∙◌, ap, inl, inr, Bool, true, false, List, [], ◌∷◌, Option, none, some, ok, ◌>>=◌,
  Bytes, All, Returns, Returns-bind, Bool-cases, get_elem?-lt,
}
use ye_cc_server.Prelude.Maps.{put, nat_key}
use ye_cc_server.Log.Event.{Event}
use ye_cc_server.Log.Level.{Level}
use ye_cc_server.Log.Appender.{Env}
use ye_cc_server.Log.Logger.Safe.{log_macro-Preserves}
use ye_cc_server.Log.Manager.{Manager}
use ye_cc_server.Log.Manager.Valid.{IsManager}
use ye_cc_server.Config.Var.{
  Cast, cast, refused, Codec, ConfigVar, set_value, notify, from_string, from_string_failed,
}
use ye_cc_server.Config.Convert.{Library}
use ye_cc_server.Log.Conf.{LogDefine, on_change}
use ye_cc_server.Log.Conf.Safe.{IsLogDefine}
use ye_cc_server.Log.Conf.Total.{IsManager-store, on_change-IsManager}
use ye_cc_server.Log.Conf.Text.Read.{logs_from_str-IsLogDefine}
use ye_cc_server.Log.Conf.Variable.{World, logs_codec, root_log, listener, logs_define, read_all}

module _ (env : Env) (now : ℕ) (event : Event) where
  -- What holds between two calls.
  pub record IsLogs (var : ConfigVar (List LogDefine) World) (w : World) : Type 0 where
    pub listened : var.cbs ≡ (0, listener env now event) ∷ []
    pub defines : All IsLogDefine var.value
    pub returned : Returns IsManager w

  root_log-Returns :
      (level : Level) (text : Bytes) (w : World)
      → Returns IsManager w
      → Returns IsManager (root_log env now event level text w)
  root_log-Returns level text w h = Returns-bind IsManager IsManager w _ h (λ m v.
      let (top, at, _) = v.valid.root_valid in
      let (s, done, (kept, _)) =
        log_macro-Preserves 0 env now m.root m.root m.store level event text v.valid
          (get_elem?-lt m.store.loggers m.root top at) in
      (record m { store = s }, rw done refl, IsManager-store m s v kept))

  listener-Returns :
      (old new : List LogDefine) (w : World)
      → All IsLogDefine new
      → Returns IsManager w
      → Returns IsManager (w >>= on_change env now event old new)
  listener-Returns old new w k h =
      Returns-bind IsManager IsManager w _ h
        (λ m v. on_change-IsManager env now event old new m v k)

  module _ (c : Codec (List LogDefine)) (var : ConfigVar (List LogDefine) World) (w : World)
      (v : IsLogs var w) where
    notify-listener :
        (new : List LogDefine)
        → notify var.cbs var.value new w ≡ (w >>= on_change env now event var.value new, none)
    unfolding notify
    notify-listener new = rw v.listened refl

    -- setValue behind its loop.
    abbrev behind_loop :
        List LogDefine
        → World × Option Bytes
        → ConfigVar (List LogDefine) World × World × Option Bytes
    behind_loop new r = elim r.1 [
      | none ↦ (record var { value = new }, r.0, none)
      | some what ↦ (var, r.0, some what)
    ]

    set_value_changes :
        (new : List LogDefine)
        → c.eq var.value new ≡ false
        → set_value c var new w
          ≡ (record var { value = new }, w >>= on_change env now event var.value new, none)
    unfolding set_value
    set_value_changes new differs =
        let run : set_value c var new w ≡ behind_loop new (notify var.cbs var.value new w) =
          rw differs refl in
        run ∙ ap (behind_loop new) (notify-listener new)

    set_value-IsLogs :
        (new : List LogDefine)
        → All IsLogDefine new
        → (let r = set_value c var new w in IsLogs r.0 r.1 × (r.2 ≡ none))
    set_value-IsLogs new k = elim (Bool-cases (c.eq var.value new)) [
      | inl same ↦
          let run : set_value c var new w ≡ (var, w, none) = unfold set_value in rw same refl in
          rw run (v, refl)
      | inr differs ↦ rw (set_value_changes new differs) (
        record {
          listened = v.listened;
          defines = k;
          returned = listener-Returns var.value new w k v.returned;
        },
        refl,
      )
    ]

    -- fromString behind the conversion.
    abbrev behind_read : Cast (List LogDefine) → ConfigVar (List LogDefine) World × World × Bool
    behind_read (refused what) = (var, from_string_failed (root_log env now event) c what w, false)
    behind_read (cast new) =
        let (var', w', thrown) = set_value c var new w in
        elim thrown [
          | none ↦ (var', w', true)
          | some what ↦ (var', from_string_failed (root_log env now event) c what w', false)
        ]

    behind_read-IsLogs :
        (read : Cast (List LogDefine))
        → ((new : List LogDefine) → read ≡ cast new → All IsLogDefine new)
        → (let r = behind_read read in IsLogs r.0 r.1)
    behind_read-IsLogs (refused what) k = record {
      listened = v.listened;
      defines = v.defines;
      returned = root_log-Returns _ _ w v.returned;
    }
    behind_read-IsLogs (cast new) k =
        let (kept, quiet) = set_value-IsLogs new (k new refl) in rw (behind_read, quiet) kept

    from_string_lem :
        (text : Bytes)
        → from_string (root_log env now event) c var text w ≡ behind_read (c.from_str text)
    unfolding from_string
    from_string_lem text = refl

    from_string-IsLogs :
        (text : Bytes)
        → ((new : List LogDefine) → c.from_str text ≡ cast new → All IsLogDefine new)
        → (let r = from_string (root_log env now event) c var text w in IsLogs r.0 r.1)
    from_string-IsLogs text k = rw (from_string_lem text) (behind_read-IsLogs (c.from_str text) k)

  module _ (lib : Library) (type_name : Bytes) where
    read_all-IsLogs :
        (texts : List Bytes) (var : ConfigVar (List LogDefine) World) (w : World)
        → IsLogs var w
        → (let r = read_all env now event lib type_name texts var w in IsLogs r.0 r.1)
    unfolding read_all
    read_all-IsLogs [] var w v = v
    read_all-IsLogs (text ∷ texts) var w v =
        let r = from_string (root_log env now event) (logs_codec lib type_name) var text w in
        read_all-IsLogs texts r.0 r.1 (
          from_string-IsLogs (logs_codec lib type_name) var w v text
            (logs_from_str-IsLogDefine lib text))

    -- From a valid manager the variable "logs" can be read from any texts one after the other, whatever the
    -- YAML library makes of them: no call faults or throws, the manager stays valid, the listener stays, and
    -- the definitions held ask for appenders of the types 1 and 2 only.
    pub logs_define-IsLogs :
        (texts : List Bytes) (m : Manager)
        → IsManager m
        → (let r = read_all env now event lib type_name texts (logs_define env now event) (ok m) in
            IsLogs r.0 r.1)
    unfolding logs_define put
    logs_define-IsLogs texts m v =
        read_all-IsLogs texts (logs_define env now event) (ok m)
          (record { listened = refl; defines = tt; returned = (m, refl, v) })
