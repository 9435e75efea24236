-- ===== src/Syntax/Keyword.antt =====
-- The keywords: `action_types` compared, and `action_map` of sources/compiler/compiler.cpp.
use covscript.Prelude.{
  ℕ, Bool, true, List, [], ◌∷◌, some, get_elem?, ◌==◌, ==_iff, ◌≡◌, refl, sym, ap, ◌∙◌,
}
use covscript.Prelude.Names.{Bytes}
use covscript.Syntax.Signal.{
  Action, import_, as_, package_, using_, namespace_, struct_, extends_, block_, endblock_, var_,
  link_, constant_, do_, if_, else_, switch_, case_, default_, while_, loop_, until_, for_,
  foreach_, in_, break_, continue_, function_, override_, return_, try_, catch_, throw_,
}

-- The number of an enumerator.
unfoldable number : Action → ℕ
number import_ = 0
number as_ = 1
number package_ = 2
number using_ = 3
number namespace_ = 4
number struct_ = 5
number extends_ = 6
number block_ = 7
number endblock_ = 8
number var_ = 9
number link_ = 10
number constant_ = 11
number do_ = 12
number if_ = 13
number else_ = 14
number switch_ = 15
number case_ = 16
number default_ = 17
number while_ = 18
number loop_ = 19
number until_ = 20
number for_ = 21
number foreach_ = 22
number in_ = 23
number break_ = 24
number continue_ = 25
number function_ = 26
number override_ = 27
number return_ = 28
number try_ = 29
number catch_ = 30
number throw_ = 31

unfoldable pub same_action : Action → Action → Bool
unfolding number
same_action a b = number a == number b

abbrev enumerators : List Action
enumerators =
    import_ ∷ as_ ∷ package_ ∷ using_ ∷ namespace_ ∷ struct_ ∷ extends_ ∷ block_ ∷ endblock_ ∷ var_
    ∷ link_ ∷ constant_ ∷ do_ ∷ if_ ∷ else_ ∷ switch_ ∷ case_ ∷ default_ ∷ while_ ∷ loop_ ∷ until_
    ∷ for_ ∷ foreach_ ∷ in_ ∷ break_ ∷ continue_ ∷ function_ ∷ override_ ∷ return_ ∷ try_ ∷ catch_
    ∷ throw_ ∷ []

enumerators-number : (a : Action) → get_elem? enumerators (number a) ≡ some a
unfolding number
enumerators-number import_ = refl
enumerators-number as_ = refl
enumerators-number package_ = refl
enumerators-number using_ = refl
enumerators-number namespace_ = refl
enumerators-number struct_ = refl
enumerators-number extends_ = refl
enumerators-number block_ = refl
enumerators-number endblock_ = refl
enumerators-number var_ = refl
enumerators-number link_ = refl
enumerators-number constant_ = refl
enumerators-number do_ = refl
enumerators-number if_ = refl
enumerators-number else_ = refl
enumerators-number switch_ = refl
enumerators-number case_ = refl
enumerators-number default_ = refl
enumerators-number while_ = refl
enumerators-number loop_ = refl
enumerators-number until_ = refl
enumerators-number for_ = refl
enumerators-number foreach_ = refl
enumerators-number in_ = refl
enumerators-number break_ = refl
enumerators-number continue_ = refl
enumerators-number function_ = refl
enumerators-number override_ = refl
enumerators-number return_ = refl
enumerators-number try_ = refl
enumerators-number catch_ = refl
enumerators-number throw_ = refl

some_same : (a b : Action) → some a ≡ some b → a ≡ b
some_same a b h = cc

pub same_action-eq : (a b : Action) → same_action a b ≡ true → a ≡ b
unfolding same_action
same_action-eq a b h = some_same a b (
    sym (enumerators-number a)
    ∙ ap (get_elem? enumerators) ((==_iff (number a) (number b)).0 h)
    ∙ enumerators-number b)

pub same_action_self : (a : Action) → same_action a a ≡ true
unfolding same_action
same_action_self a = (==_iff (number a) (number a)).1 refl

unfoldable pub action_map : List (Bytes × Action)
action_map =
    (105 ∷ 109 ∷ 112 ∷ 111 ∷ 114 ∷ 116 ∷ [], import_)
    ∷ (97 ∷ 115 ∷ [], as_)
    ∷ (112 ∷ 97 ∷ 99 ∷ 107 ∷ 97 ∷ 103 ∷ 101 ∷ [], package_)
    ∷ (117 ∷ 115 ∷ 105 ∷ 110 ∷ 103 ∷ [], using_)
    ∷ (110 ∷ 97 ∷ 109 ∷ 101 ∷ 115 ∷ 112 ∷ 97 ∷ 99 ∷ 101 ∷ [], namespace_)
    ∷ (115 ∷ 116 ∷ 114 ∷ 117 ∷ 99 ∷ 116 ∷ [], struct_)
    ∷ (99 ∷ 108 ∷ 97 ∷ 115 ∷ 115 ∷ [], struct_)
    ∷ (101 ∷ 120 ∷ 116 ∷ 101 ∷ 110 ∷ 100 ∷ 115 ∷ [], extends_)
    ∷ (98 ∷ 108 ∷ 111 ∷ 99 ∷ 107 ∷ [], block_)
    ∷ (101 ∷ 110 ∷ 100 ∷ [], endblock_)
    ∷ (118 ∷ 97 ∷ 114 ∷ [], var_)
    ∷ (108 ∷ 105 ∷ 110 ∷ 107 ∷ [], link_)
    ∷ (99 ∷ 111 ∷ 110 ∷ 115 ∷ 116 ∷ 97 ∷ 110 ∷ 116 ∷ [], constant_)
    ∷ (100 ∷ 111 ∷ [], do_)
    ∷ (105 ∷ 102 ∷ [], if_)
    ∷ (101 ∷ 108 ∷ 115 ∷ 101 ∷ [], else_)
    ∷ (115 ∷ 119 ∷ 105 ∷ 116 ∷ 99 ∷ 104 ∷ [], switch_)
    ∷ (99 ∷ 97 ∷ 115 ∷ 101 ∷ [], case_)
    ∷ (100 ∷ 101 ∷ 102 ∷ 97 ∷ 117 ∷ 108 ∷ 116 ∷ [], default_)
    ∷ (119 ∷ 104 ∷ 105 ∷ 108 ∷ 101 ∷ [], while_)
    ∷ (117 ∷ 110 ∷ 116 ∷ 105 ∷ 108 ∷ [], until_)
    ∷ (108 ∷ 111 ∷ 111 ∷ 112 ∷ [], loop_)
    ∷ (102 ∷ 111 ∷ 114 ∷ [], for_)
    ∷ (102 ∷ 111 ∷ 114 ∷ 101 ∷ 97 ∷ 99 ∷ 104 ∷ [], foreach_)
    ∷ (105 ∷ 110 ∷ [], in_)
    ∷ (98 ∷ 114 ∷ 101 ∷ 97 ∷ 107 ∷ [], break_)
    ∷ (99 ∷ 111 ∷ 110 ∷ 116 ∷ 105 ∷ 110 ∷ 117 ∷ 101 ∷ [], continue_)
    ∷ (102 ∷ 117 ∷ 110 ∷ 99 ∷ 116 ∷ 105 ∷ 111 ∷ 110 ∷ [], function_)
    ∷ (111 ∷ 118 ∷ 101 ∷ 114 ∷ 114 ∷ 105 ∷ 100 ∷ 101 ∷ [], override_)
    ∷ (114 ∷ 101 ∷ 116 ∷ 117 ∷ 114 ∷ 110 ∷ [], return_)
    ∷ (116 ∷ 114 ∷ 121 ∷ [], try_)
    ∷ (99 ∷ 97 ∷ 116 ∷ 99 ∷ 104 ∷ [], catch_)
    ∷ (116 ∷ 104 ∷ 114 ∷ 111 ∷ 119 ∷ [], throw_)
    ∷ []
