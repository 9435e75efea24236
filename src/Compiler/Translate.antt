-- ===== src/Compiler/Translate.antt =====
-- `translator_type::translate` of sources/compiler/compiler.cpp: lines to statements, by a stack of
-- blocks. What the methods do with a line or a block is a parameter.
pub mod Depth
pub mod Balance
pub mod Nesting
use covscript.Prelude.{
  ℕ, zero, suc, ◌+◌, ◌%◌, Bool, true, false, List, [], ◌∷◌, ◌++◌, Option, none, some, Result, ok,
  err, compile_error, ◌>>=◌, if◌then◌else◌,
}
use covscript.Syntax.Token.{Token, endline}
use covscript.Lexer.Preprocessor.{rethrow}
use covscript.Compiler.Method.{
  Method, MethodType, null_method, single, block, jit_command, get_type, is_loop_block, is_end,
}
use covscript.Compiler.Match.{Grammar, match}

-- `C` is the context, `S` a statement, `D` a domain. Statements are null pointers where there is none. A
-- method that translates reads and may change `loop_depth`, the number after the context.
pub record TranslateEnv (V C S D : Type 0) : Type 0 where
  pub m_data : List Grammar
  pub process_line : List (Token V) → C → Result (List (Token V) × C)
  pub add_domain : C → Result C
  pub add_set : C → C
  pub remove_set : C → Result C
  pub get_domain : C → Result D
  pub remove_domain : C → Result C
  pub preprocess : Method → C → List (List (Token V)) → Result C
  pub postprocess : Method → C → D → Result C
  pub translate : Method → C → ℕ → List (List (Token V)) → Result (Option S × C × ℕ)
  pub translate_end :
      Method → Method → C → ℕ → List (List (Token V)) → List (Token V) → Result (Option S × C × ℕ)

-- The variables of the function, with `loop_depth` of the compiler; the top of a stack comes first.
pub record Translation (V C S : Type 0) : Type 0 where
  pub method_line_num : ℕ
  pub tmp : List (List (Token V))
  pub methods : List Method
  pub loop_depth : ℕ
  pub statements : List S
  pub context : C

-- `++loop_depth` and `--loop_depth` on a `std::size_t`.
abbrev pub increment_depth : ℕ → ℕ
increment_depth n = suc n % 18446744073709551616

abbrev pub decrement_depth : ℕ → ℕ
decrement_depth n = (n + 18446744073709551615) % 18446744073709551616

unfoldable pub push_statement : {S : Type 0} → Option S → List S → List S
push_statement none statements = statements
push_statement (some s) statements = statements ++ s ∷ []

unfoldable pub leave_loop : Method → ℕ → ℕ
unfolding is_loop_block
leave_loop m depth = if is_loop_block m then decrement_depth depth else depth

unfoldable pub is_empty : List Method → Bool
is_empty [] = true
is_empty (m ∷ methods) = false

-- The line number at the end of a line.
unfoldable pub tail_line : {V : Type 0} → List (Token V) → Result ℕ
tail_line [] = err (compile_error "Invalid statement line: missing endline token.")
tail_line (endline n ∷ []) = ok n
tail_line (t ∷ []) =
    err (compile_error "Invalid statement line: the last token must be an endline token.")
tail_line (t ∷ u ∷ line) = tail_line (u ∷ line)

-- It goes on with the statements, the context and the depth of loops that there are.
unfoldable pub first_translation : {V C S : Type 0} → List S → ℕ → C → Translation V C S
first_translation statements loop_depth context = record {
  method_line_num = 0;
  tmp = [];
  methods = [];
  loop_depth = loop_depth;
  statements = statements;
  context = context;
}

module _ {V C S D : Type 0} (env : TranslateEnv V C S D) (raw : Bool) where
  -- The scope of a block ends.
  unfoldable pub close_scope : Method → C → Result C
  close_scope top context =
      if raw
      then (env.remove_set context >>= λ c.
          env.get_domain c >>= λ domain. env.remove_domain c >>= λ d. env.postprocess top d domain)
      else ok context

  unfoldable pub preprocess_if_raw : Method → C → List (Token V) → Result C
  preprocess_if_raw m context line =
      if raw then env.preprocess m context (line ∷ []) else ok context

  -- `line_num` is the line that an error names; it stands at the end of the processed line too.
  -- An 'end', of which `top` and `rest` are the open blocks. The outermost block becomes a statement.
  unfoldable pub close_block :
      Method
      → ℕ
      → List (Token V)
      → Method
      → List Method
      → Translation V C S
      → Result (Translation V C S)
  unfolding push_statement leave_loop close_scope preprocess_if_raw rethrow
  close_block m line_num line top [] s = rethrow line_num (close_scope top s.context) >>= λ c.
      rethrow s.method_line_num (env.translate_end m top c s.loop_depth s.tmp line)
      >>= λ (sptr, d, depth). ok (record s {
        methods = [];
        loop_depth = leave_loop top depth;
        tmp = [];
        context = d;
        statements = push_statement sptr s.statements;
      })
  close_block m line_num line top (next ∷ rest) s =
      rethrow line_num (close_scope top s.context) >>= λ c.
      rethrow line_num (preprocess_if_raw m c line) >>= λ d. ok (record s {
        methods = next ∷ rest;
        loop_depth = leave_loop top s.loop_depth;
        tmp = s.tmp ++ line ∷ [];
        context = d;
      })

  -- A line in a block waits for the end of the block.
  unfoldable pub defer_line :
      Method → ℕ → List (Token V) → Translation V C S → Result (Translation V C S)
  unfolding preprocess_if_raw rethrow
  defer_line m line_num line s = rethrow line_num (preprocess_if_raw m s.context line) >>= λ c.
      ok (record s { tmp = s.tmp ++ line ∷ []; context = c })

  -- A line outside of blocks is a statement.
  unfoldable pub translate_now :
      Method → ℕ → List (Token V) → Translation V C S → Result (Translation V C S)
  unfolding push_statement preprocess_if_raw rethrow
  translate_now m line_num line s = rethrow line_num (preprocess_if_raw m s.context line) >>= λ c.
      rethrow line_num (env.translate m c s.loop_depth (line ∷ [])) >>= λ (sptr, d, depth).
      ok (record s {
        context = d;
        loop_depth = depth;
        statements = push_statement sptr s.statements;
      })

  unfoldable pub single_in :
      Method → ℕ → List (Token V) → List Method → Translation V C S → Result (Translation V C S)
  unfolding is_end close_block defer_line translate_now rethrow
  single_in m line_num line [] s =
      if is_end m
      then rethrow line_num
          (err (compile_error "Unexpected 'end': there is no open block to close"))
      else translate_now m line_num line s
  single_in m line_num line (top ∷ rest) s =
      if is_end m then close_block m line_num line top rest s else defer_line m line_num line s

  unfoldable pub translate_single :
      Method → ℕ → List (Token V) → Translation V C S → Result (Translation V C S)
  unfolding single_in
  translate_single m line_num line s = single_in m line_num line s.methods s

  unfoldable pub open_scope : Method → C → List (Token V) → Result C
  open_scope m context line =
      if raw
      then (env.add_domain context >>= λ c. env.preprocess m (env.add_set c) (line ∷ []))
      else ok context

  unfoldable pub translate_block :
      Method → ℕ → List (Token V) → Translation V C S → Result (Translation V C S)
  unfolding open_scope is_empty is_loop_block rethrow
  translate_block m line_num line s = rethrow line_num (open_scope m s.context line) >>= λ c.
      ok (record s {
        method_line_num = if is_empty s.methods then line_num else s.method_line_num;
        methods = m ∷ s.methods;
        loop_depth = if is_loop_block m then increment_depth s.loop_depth else s.loop_depth;
        tmp = s.tmp ++ line ∷ [];
        context = c;
      })

  -- The switch over the kinds of methods.
  unfoldable pub translate_type :
      MethodType → Method → ℕ → List (Token V) → Translation V C S → Result (Translation V C S)
  unfolding translate_single translate_block rethrow
  translate_type null_method m line_num line s =
      rethrow line_num (err (compile_error "Unrecognized statement"))
  translate_type single m line_num line s = translate_single m line_num line s
  translate_type block m line_num line s = translate_block m line_num line s
  translate_type jit_command m line_num line s =
      rethrow line_num (env.translate m s.context s.loop_depth (line ∷ [])) >>= λ (sptr, c, depth).
      ok (record s { context = c; loop_depth = depth })

  unfoldable pub process_if_raw : List (Token V) → C → Result (List (Token V) × C)
  process_if_raw line context = if raw then env.process_line line context else ok (line, context)

  -- A round of the loop.
  unfoldable pub translate_line : List (Token V) → Translation V C S → Result (Translation V C S)
  unfolding tail_line process_if_raw get_type match translate_type rethrow
  translate_line it s = tail_line it >>= λ line_num.
      rethrow line_num (process_if_raw it s.context) >>= λ (line, c).
      rethrow line_num (match env.m_data line) >>= λ m.
      translate_type (get_type m) m line_num line (record s { context = c })

  unfoldable pub translate_loop :
      List (List (Token V)) → Translation V C S → Result (Translation V C S)
  unfolding translate_line
  translate_loop [] s = ok s
  translate_loop (line ∷ lines) s = translate_line line s >>= λ t. translate_loop lines t

  unfoldable pub translate_lines :
      List (List (Token V)) → List S → ℕ → C → Result (Translation V C S)
  unfolding translate_loop first_translation is_empty
  translate_lines lines statements loop_depth context =
      translate_loop lines (first_translation statements loop_depth context) >>= λ s.
      if is_empty s.methods
      then ok s
      else err (compile_error "Missing 'end' to close the current block")
