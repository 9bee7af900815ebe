-- ===== src/Parsing.antt =====
-- parsing/: arguments written as one text (`a=1 b="x y" {{ z }}`).
pub mod Quoting
pub mod Splitter
pub mod KeyValue
