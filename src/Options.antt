-- ===== src/Options.antt =====
-- options.go: the options of a writer and of a reader are functions on a configuration, which
-- are applied in order.
use omnistorage.Base.{Bytes, List, [], ◌∷◌}
use omnistorage.Base.Int.{ℤ, pos}
use omnistorage.Base.Dict.{Dict}

pub record WriterConfig : Type 0 where
  pub buffer_size : ℤ
  pub content_type : Bytes
  pub metadata : Dict Bytes Bytes

pub record ReaderConfig : Type 0 where
  pub buffer_size : ℤ
  pub offset : ℤ
  pub limit : ℤ

abbrev pub WriterOption : Type 0
WriterOption = WriterConfig → WriterConfig

abbrev pub ReaderOption : Type 0
ReaderOption = ReaderConfig → ReaderConfig

abbrev pub with_buffer_size : ℤ → WriterOption
with_buffer_size size c = record c { buffer_size = size }

abbrev pub with_content_type : Bytes → WriterOption
with_content_type content_type c = record c { content_type = content_type }

abbrev pub with_metadata : Dict Bytes Bytes → WriterOption
with_metadata metadata c = record c { metadata = metadata }

abbrev pub with_reader_buffer_size : ℤ → ReaderOption
with_reader_buffer_size size c = record c { buffer_size = size }

abbrev pub with_offset : ℤ → ReaderOption
with_offset offset c = record c { offset = offset }

abbrev pub with_limit : ℤ → ReaderOption
with_limit limit c = record c { limit = limit }

apply_all : {C : Type 0} → List (C → C) → C → C
apply_all [] c = c
apply_all (opt ∷ opts) c = apply_all opts (opt c)

unfoldable pub apply_writer_options : List WriterOption → WriterConfig
unfolding apply_all
apply_writer_options opts =
    apply_all opts (record { buffer_size = pos 0; content_type = []; metadata = [] })

unfoldable pub apply_reader_options : List ReaderOption → ReaderConfig
unfolding apply_all
apply_reader_options opts =
    apply_all opts (record { buffer_size = pos 0; offset = pos 0; limit = pos 0 })
