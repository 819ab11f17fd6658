-- ===== src/Benchmark/Thinking/Extraction.antt =====
-- tools/benchmark_decision_android.py: what is read of a message that thinks before it answers.
use pocket_agents_lab.Prelude.{
  ℕ, zero, suc, Bool, true, false, Option, some, [], ◌∷◌, ◌++◌, ◌≡◌, refl, ap, ◌∙◌, Text, codes,
  has_prefix, drop_prefix, strip, strip-framed, All, ◌==◌, length, reverse, reverse-append,
}
use pocket_agents_lab.Benchmark.Thinking.{
  open_tag, close_tag, after_close, think_end, sub_think, remove_thinking, object_rest, find_object,
  raw_content, clean_content, thinking_object, or_text, nonempty_text,
}

-- A text without the character that begins a tag.
abbrev pub IsUntagged : Text → Type 0
IsUntagged text = All (λ c. (b'<' == c) ≡ false) text

-- A text without braces.
abbrev pub IsFlat : Text → Type 0
IsFlat text = All (λ c. ((c == b'{') ≡ false) × ((c == b'}') ≡ false)) text

-- The object with a given text between its braces.
abbrev pub object_of : Text → Text
object_of body = b'{' ∷ (body ++ (b'}' ∷ []))

after_close-skip :
    (thought rest : Text)
    → IsUntagged thought
    → after_close (thought ++ (close_tag ++ rest)) ≡ some rest
unfolding after_close has_prefix drop_prefix
after_close-skip [] rest plain = refl
after_close-skip (c ∷ thought) rest plain =
    rw (after_close, has_prefix, plain.0) (after_close-skip thought rest plain.1)

sub_think-plain : (fuel : ℕ) (text : Text) → IsUntagged text → sub_think fuel text ≡ text
unfolding sub_think think_end has_prefix
sub_think-plain zero text plain = refl
sub_think-plain (suc fuel) [] plain = refl
sub_think-plain (suc fuel) (c ∷ text) plain =
    rw (sub_think, think_end, has_prefix, plain.0)
      (ap (λ t. c ∷ t) (sub_think-plain fuel text plain.1))

sub_think-match :
    (fuel c : ℕ) (text rest : Text)
    → think_end (c ∷ text) ≡ some rest
    → sub_think (suc fuel) (c ∷ text) ≡ sub_think fuel rest
unfolding sub_think
sub_think-match fuel c text rest ends = rw (sub_think, ends) refl

think_end-tagged :
    (thought rest : Text)
    → IsUntagged thought
    → think_end (open_tag ++ (thought ++ (close_tag ++ rest))) ≡ some rest
unfolding think_end has_prefix drop_prefix
think_end-tagged thought rest plain = after_close-skip thought rest plain

remove_thinking-tagged :
    (thought rest : Text)
    → IsUntagged thought
    → IsUntagged rest
    → remove_thinking (open_tag ++ (thought ++ (close_tag ++ rest))) ≡ rest
unfolding remove_thinking
remove_thinking-tagged thought rest plain plain' =
    sub_think-match (length (codes "think>" ++ (thought ++ (close_tag ++ rest)))) b'<'
      (codes "think>" ++ (thought ++ (close_tag ++ rest))) rest
      (think_end-tagged thought rest plain)
    ∙ sub_think-plain (length (codes "think>" ++ (thought ++ (close_tag ++ rest)))) rest plain'

object_rest-flat :
    (body : Text) → IsFlat body → object_rest (body ++ (b'}' ∷ [])) ≡ some (body ++ (b'}' ∷ []))
unfolding object_rest
object_rest-flat [] flat = refl
object_rest-flat (c ∷ body) flat =
    rw (object_rest, flat.0.0, flat.0.1, object_rest-flat body flat.1) refl

find_object-object :
    (body : Text) → IsFlat body → find_object (object_of body) ≡ some (object_of body)
unfolding find_object
find_object-object body flat = rw (object_rest-flat body flat) refl

strip-object :
    (is_space : ℕ → Bool) (before body after : Text)
    → All (λ c. is_space c ≡ true) before
    → All (λ c. is_space c ≡ true) after
    → is_space b'{' ≡ false
    → is_space b'}' ≡ false
    → strip is_space (before ++ (object_of body ++ after)) ≡ object_of body
strip-object is_space before body after b a open_brace close_brace =
    strip-framed is_space before (object_of body) after b'{' b'}' (body ++ (b'}' ∷ []))
      (reverse body ++ (b'{' ∷ [])) b a (refl, open_brace)
      (
        reverse-append (b'{' ∷ []) (body ++ (b'}' ∷ []))
            ∙ ap (λ t. t ++ (b'{' ∷ [])) (reverse-append body (b'}' ∷ [])),
        close_brace,
      )

-- A message whose content is a thought in its tags and then an object without braces inside, with
-- white space round it, is read as that object, if the thought and what follows it have no "<" and
-- braces are no white space.
pub thinking_object-tagged :
    (is_space : ℕ → Bool) (reasoning : Option Text) (thought before body after : Text)
    → is_space b'{' ≡ false
    → is_space b'}' ≡ false
    → IsUntagged thought
    → IsUntagged (before ++ (object_of body ++ after))
    → IsFlat body
    → All (λ c. is_space c ≡ true) before
    → All (λ c. is_space c ≡ true) after
    → thinking_object is_space (record {
      content =
          some (open_tag ++ (thought ++ (close_tag ++ (before ++ (object_of body ++ after)))));
      reasoning_content = reasoning;
    })
      ≡ some (object_of body)
unfolding thinking_object raw_content nonempty_text or_text clean_content
thinking_object-tagged is_space reasoning thought before body after open_brace close_brace plain
      plain' flat b a =
    rw
      (
        thinking_object,
        raw_content,
        clean_content,
        remove_thinking-tagged thought (before ++ (object_of body ++ after)) plain plain',
        strip-object is_space before body after b a open_brace close_brace,
      )
      (find_object-object body flat)
