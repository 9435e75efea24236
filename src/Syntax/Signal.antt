-- ===== src/Syntax/Signal.antt =====
-- `action_types`, `signal_types` and their tables: include/covscript/impl/symbols.hpp and
-- sources/compiler/compiler.cpp.
use covscript.Prelude.{ℕ, Bool, true, false, Option, none, some, Result, ok, err, compile_error}

pub data Action : Type 0 where
  import_ as_ package_ using_ namespace_ struct_ extends_ block_ endblock_ : Action
  var_ link_ constant_ do_ if_ else_ switch_ case_ default_ : Action
  while_ loop_ until_ for_ foreach_ in_ break_ continue_ function_ : Action
  override_ return_ try_ catch_ throw_ : Action

pub data Signal : Type 0 where
  endline_ add_ addasi_ sub_ subasi_ mul_ mulasi_ div_ divasi_ : Signal
  mod_ modasi_ pow_ powasi_ com_ dot_ und_ abo_ asi_ : Signal
  lnkasi_ equ_ ueq_ aeq_ neq_ and_ or_ not_ inc_ : Signal
  dec_ pair_ choice_ slb_ srb_ mlb_ mrb_ llb_ lrb_ : Signal
  esb_ emb_ elb_ fcall_ access_ typeid_ addr_ new_ gcnew_ : Signal
  arrow_ lambda_ escape_ minus_ vardef_ varchk_ varprt_ vargs_ bind_ : Signal
  error_ : Signal

-- `mapping::match` on the entry that `find` gives.
unfoldable pub match_entry {ℓ} : {A : Type ℓ} → Option A → Result A
match_entry none = err (compile_error "Undefined Mapping.")
match_entry (some a) = ok a

unfoldable pub signal_level_map : Signal → Option ℕ
signal_level_map add_ = some 10
signal_level_map addasi_ = some 1
signal_level_map sub_ = some 10
signal_level_map subasi_ = some 1
signal_level_map mul_ = some 11
signal_level_map mulasi_ = some 1
signal_level_map div_ = some 11
signal_level_map divasi_ = some 1
signal_level_map mod_ = some 12
signal_level_map modasi_ = some 1
signal_level_map pow_ = some 12
signal_level_map powasi_ = some 1
signal_level_map com_ = some 0
signal_level_map dot_ = some 15
signal_level_map und_ = some 9
signal_level_map abo_ = some 9
signal_level_map asi_ = some 1
signal_level_map lnkasi_ = some 1
signal_level_map equ_ = some 9
signal_level_map ueq_ = some 9
signal_level_map aeq_ = some 9
signal_level_map neq_ = some 9
signal_level_map and_ = some 7
signal_level_map or_ = some 6
signal_level_map not_ = some 8
signal_level_map inc_ = some 13
signal_level_map dec_ = some 13
signal_level_map pair_ = some 4
signal_level_map choice_ = some 3
signal_level_map emb_ = some 15
signal_level_map fcall_ = some 15
signal_level_map access_ = some 15
signal_level_map typeid_ = some 14
signal_level_map addr_ = some 13
signal_level_map new_ = some 14
signal_level_map gcnew_ = some 14
signal_level_map arrow_ = some 15
signal_level_map lambda_ = some 2
signal_level_map vardef_ = some 20
signal_level_map varchk_ = some 20
signal_level_map varprt_ = some 20
signal_level_map vargs_ = some 20
signal_level_map _ = none

-- The set that the source calls `signal_left_associative`.
unfoldable pub signal_left_associative : Signal → Bool
signal_left_associative asi_ = true
signal_left_associative lnkasi_ = true
signal_left_associative addasi_ = true
signal_left_associative subasi_ = true
signal_left_associative mulasi_ = true
signal_left_associative divasi_ = true
signal_left_associative modasi_ = true
signal_left_associative powasi_ = true
signal_left_associative _ = false
