-- ===== src/Log/Conf/Frame.antt =====
-- LogIniter's listener in src/log.cpp on one logger: every other logger, and the types and levels of the
-- appenders that are there, stay.
use ye_cc_server.Prelude.{
  ℕ, refl, ◌∙◌, ap, inl, inr, List, [], ◌∷◌, ◌++◌, Option, none, some, Outcome, ◌>>=◌, Ends,
  Ends-bind, Ends-ok, Ends-map, Bytes, bytes_eq, length, get_elem?, Bool-cases, Option-cases,
}
use ye_cc_server.Log.Level.{Level}
use ye_cc_server.Log.Formatter.Items.{Formatter, new_formatter}
use ye_cc_server.Log.Appender
use ye_cc_server.Log.Appender.{Appender, Outside, Env}
use ye_cc_server.Log.Logger.{
  Logger, Store, deref, put_appender, give_formatter, set_pattern, set_level, clear_appender,
  add_appender, report,
}
use ye_cc_server.Log.Conf.{
  AppenderDefine, LogDefine, make_defined, set_defined, add_defined, add_all_defined,
  set_defined_pattern, configure,
}
use ye_cc_server.Log.Conf.Stable.{
  Same, Stable-refl, Stable-set, Stable-append, deref_ok, give_formatter-Stable, Frame, Frame-trans,
  put_logger-Frame,
}

module _ (p : ℕ) where
  abbrev Frames : Store → Outcome Store → Type 0
  Frames s r = Ends (Frame p s) r

  Frames-bind :
      (s : Store) (r : Outcome Store) (f : Store → Outcome Store)
      → Frames s r
      → ((t : Store) → Frames t (f t))
      → Frames s (r >>= f)
  Frames-bind s r f h k =
      Ends-bind (Frame p s) r f
        (λ t e. Ends-map (λ u x. Frame-trans p s t u (Ends-ok (Frame p s) r t h e) x) (f t) (k t))

  Frame-refl : (s : Store) → Frame p s s
  Frame-refl s = (Stable-refl s.appenders, λ q ne. refl)

  set_level-Frame : (s : Store) (level : Level) → Frames s (set_level s p level)
  unfolding set_level
  set_level-Frame s level =
      Ends-bind (Frame p s) (deref s.loggers p) _ (λ l e. put_logger-Frame p s _)

  clear_appender-Frame : (s : Store) → Frames s (clear_appender s p)
  unfolding clear_appender
  clear_appender-Frame s =
      Ends-bind (Frame p s) (deref s.loggers p) _ (λ l e. put_logger-Frame p s _)

  set_pattern-Frame : (s : Store) (pattern : Bytes) → Frames s (set_pattern s p pattern)
  unfolding set_pattern
  set_pattern-Frame s pattern = Ends-bind (Frame p s) (new_formatter pattern) _ (λ f made.
      Ends-bind (Frame p s) (deref s.loggers p) _ (λ l found.
        let u : Store = record s { outside = report s.outside l.name f pattern } in
        Ends-bind (Frame p s) (give_formatter l.appenders u (some f)) _ (λ t given.
          let (kept, same) = Ends-ok _ _ t (give_formatter-Stable l.appenders u (some f)) given in
          let new : Logger = record l { formatter = some f } in
          let (_, others) = put_logger-Frame p t new in
          (kept, λ q ne. others q ne ∙ ap (λ ls. get_elem? ls q) same))))

  set_defined_pattern-Frame :
      (s : Store) (pattern : Bytes) → Frames s (set_defined_pattern s p pattern)
  unfolding set_defined_pattern
  set_defined_pattern-Frame s pattern = elim (Bool-cases (bytes_eq pattern [])) [
    | inl empty ↦ rw empty (Frame-refl s)
    | inr given ↦ rw given (set_pattern-Frame s pattern)
  ]

  attached-Same :
      (app : Appender) (f : Option Formatter)
      → Same app (elim app.formatter [ none ↦ Appender.set_formatter app f | some g ↦ app ])
  attached-Same app f = elim (Option-cases app.formatter) [
    | inl missing ↦ rw missing (refl, refl)
    | inr (g, there) ↦ rw there (refl, refl)
  ]

  add_appender-Frame : (s : Store) (a : ℕ) → Frames s (add_appender s p a)
  unfolding add_appender
  add_appender-Frame s a = Ends-bind (Frame p s) (deref s.loggers p) _ (λ l found.
      Ends-bind (Frame p s) (deref s.appenders a) _ (λ app at.
        let given : Appender = elim app.formatter [
          | none ↦ Appender.set_formatter app l.formatter
          | some g ↦ app
        ] in
        let u : Store = put_appender s a given in
        let (_, others) = put_logger-Frame p u (record l { appenders = l.appenders ++ a ∷ [] }) in
        (
          Stable-set s.appenders a app given (deref_ok s.appenders a app at)
              (attached-Same app l.formatter),
          others,
        )))

  add_defined-Frame : (s : Store) (d : AppenderDefine) → Frames s (add_defined s p d)
  unfolding add_defined
  add_defined-Frame s d = elim (Option-cases (make_defined d)) [
    | inl null ↦ rw (null, add_defined) tt
    | inr (np, made) ↦
        rw (made, add_defined)
          (Ends-bind (Frame p s) (set_defined np s.outside d) _ (λ done e.
            let t : Store = record s { appenders = s.appenders ++ done.0 ∷ []; outside = done.1 } in
            Ends-map
              (λ u x. Frame-trans p s t u (Stable-append s.appenders (done.0 ∷ []), λ q ne. refl) x)
              (add_appender t p (length s.appenders)) (add_appender-Frame t (length s.appenders))))
  ]

  add_all_defined-Frame : (ds : List AppenderDefine) (s : Store) → Frames s (add_all_defined s p ds)
  unfolding add_all_defined
  add_all_defined-Frame [] s = Frame-refl s
  add_all_defined-Frame (d ∷ ds) s =
      Frames-bind s (add_defined s p d) _ (add_defined-Frame s d) (λ t. add_all_defined-Frame ds t)

  pub configure-Frame : (s : Store) (d : LogDefine) → Frames s (configure s p d)
  unfolding configure
  configure-Frame s d = Frames-bind s (set_level s p d.level) _ (set_level-Frame s d.level) (λ t.
      Frames-bind t (set_defined_pattern t p d.formatter) _
        (set_defined_pattern-Frame t d.formatter)
        (λ u.
          Frames-bind u (clear_appender u p) _ (clear_appender-Frame u)
            (λ x. add_all_defined-Frame d.appenders x)))

  pub disable-Frame :
      (s : Store) (level : Level) → Frames s (set_level s p level >>= λ t. clear_appender t p)
  disable-Frame s level =
      Frames-bind s (set_level s p level) _ (set_level-Frame s level) (λ t. clear_appender-Frame t)
