-- ===== src/Logger/Laws.antt =====
-- Which texts fit into the buffer of the logger.
use easyforetell.Prelude.{
  ◌+◌, ◌≤◌, ◌<◌, ◌≡◌, refl, ◌++◌, none, some, arith, length, length-append, lt→ltb, not_lt→ltb,
}
use easyforetell.Memory.{Bytes}
use easyforetell.Logger.{Priority, log_buffer_size, log_text}

module _ (priority : Priority) (front text back : Bytes) where
  whole : length (front ++ (text ++ back)) ≡ length front + (length text + length back)
  whole = rw (length-append front (text ++ back), length-append text back) refl

  pub text-overflows :
      log_buffer_size ≤ length front + (length text + length back)
      → log_text priority (front ++ (text ++ back)) ≡ none
  unfolding log_text
  text-overflows long =
      rw
        (not_lt→ltb (length (front ++ (text ++ back))) log_buffer_size (omega (arith, long, whole)))
        refl

  pub text-fits :
      length front + (length text + length back) < log_buffer_size
      → log_text priority (front ++ (text ++ back))
        ≡ some (record { priority = priority; message = front ++ (text ++ back) })
  unfolding log_text
  text-fits short =
      rw (lt→ltb (length (front ++ (text ++ back))) log_buffer_size (omega (arith, short, whole)))
        refl
