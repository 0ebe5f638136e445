-- ===== src/Engine/Instructions.antt =====
-- app/agno_runtime/engine.py: `_resolve_instructions`, with the section on memory of
-- app/agno_runtime/explicit_memory.py.
use aiplatform.Shared.{
  ℕ, Bool, true, false, ◌&&◌, ◌||◌, not, Option, none, some, List, [], ◌∷◌, ◌++◌, Text, String,
  codes, ◌==◌, select, is_filled, if◌then◌else◌,
}
use aiplatform.Exec.{Result, ok}
use aiplatform.State.{Db}
use aiplatform.Knowledge.Service.{execute_for_agent, join_blocks}
use aiplatform.Attachment.Service.{render_for_prompt}
use aiplatform.Engine.Contexts.{ResolvedRuntimeContext, then_ok}
use aiplatform.Engine.Tools.{Toolkit, Request, is_known}

-- `[uuid.UUID(a) for a in raw]`, or an empty list if one raises
abbrev pub all_uuids : (Text → Option ℕ) → List Text → Option (List ℕ)
all_uuids parse [] = some []
all_uuids parse (t ∷ ts) = elim (parse t) [
  | none ↦ none
  | some i ↦ elim (all_uuids parse ts) [ none ↦ none | some is ↦ some (i ∷ is) ]
]

unfoldable pub attachment_ids : (Text → Option ℕ) → List Text → List ℕ
attachment_ids parse raw = elim (all_uuids parse raw) [ none ↦ [] | some ids ↦ ids ]

abbrev pub starts_with : Text → Text → Bool
starts_with [] s = true
starts_with (c ∷ t) [] = false
starts_with (c ∷ t) (d ∷ s) = c == d && starts_with t s

-- `t in s`
abbrev pub contains_text : Text → Text → Bool
contains_text t [] = starts_with t []
contains_text t (c ∷ s) = starts_with t (c ∷ s) || contains_text t s

unfoldable pub has_valid_attachment : Text → Bool
has_valid_attachment context =
    not (contains_text (codes "KHÔNG đọc được") context) && is_filled context

abbrev pub priority_note : Text
priority_note =
    10
    ∷ 10
    ∷ (codes "LƯU Ý QUAN TRỌNG: Người dùng vừa đính kèm file trong tin nhắn này. "
        ++ (codes "Hãy ưu tiên trả lời dựa trên nội dung file đính kèm ở trên, KHÔNG tự động "
            ++ (codes "tìm kiếm hay trộn lẫn với tài liệu khác trong Knowledge Base trừ khi người "
                ++ codes "dùng yêu cầu rõ ràng.")))

-- `"\n\n".join(p for p in parts if p)`, or the default
abbrev pub joined_or : List Text → Text → Text
joined_or [] default = default
joined_or (t ∷ ts) default = join_blocks (t ∷ ts)

unfoldable pub instructions_with : Text → Text → Text → Text
unfolding has_valid_attachment join_blocks
instructions_with attachment_context knowledge_context final_prompt =
    joined_or (select is_filled (attachment_context ∷ knowledge_context ∷ final_prompt ∷ []))
      final_prompt
    ++ (if has_valid_attachment attachment_context then priority_note else [])

unfoldable pub resolve_instructions : Toolkit → ResolvedRuntimeContext → Request → Db → Result Text
unfolding execute_for_agent attachment_ids render_for_prompt instructions_with
resolve_instructions k ctx req d =
    then_ok (execute_for_agent k.platform ctx.agent.id req.message d) λ knowledge_context.
      let ids = attachment_ids k.parse_uuid req.attachments in
      ok (
        instructions_with (render_for_prompt k.show_id k.platform.strip ids d) knowledge_context
          ctx.final_prompt)

abbrev pub lines : List String → Text
lines [] = []
lines (s ∷ []) = codes s
lines (s ∷ t ∷ ss) = codes s ++ 10 ∷ lines (t ∷ ss)

-- `MEMORY_INSTRUCTIONS_SECTION`
unfoldable pub memory_instructions_section : Text
memory_instructions_section = lines (
    "# Memory" ∷ "Bạn có khả năng ghi nhớ thông tin lâu dài về người dùng qua tool `remember_fact`."
    ∷ "BẮT BUỘC gọi tool `remember_fact` NGAY LẬP TỨC (không chỉ trả lời bằng lời) khi:"
    ∷ "- Người dùng dùng các từ như \"hãy nhớ\", \"ghi nhớ\", \"nhớ giúp tôi\", \"đừng quên\""
    ∷ "- Người dùng cung cấp thông tin cá nhân quan trọng nên được nhớ cho lần sau"
    ∷ "  (tên, vai trò, sở thích, thông tin liên hệ, ngữ cảnh công việc lặp lại...)"
    ∷ "Không tự cho rằng cơ chế tự động sẽ lưu giúp bạn - nếu người dùng yêu cầu"
    ∷ "tường minh, PHẢI gọi tool này, không chỉ xác nhận bằng lời rồi bỏ qua." ∷ [])

unfoldable pub with_memory_section : Option Text → Text → Text
with_memory_section user t = if is_known user then t ++ 10 ∷ 10 ∷ memory_instructions_section else t
