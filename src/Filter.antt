-- ===== src/Filter.antt =====
-- filter/static_block_event_filters.go, message_type_filters.go, block_event_filter_registry.go:
-- the filters on block events and message types. The package regexp is a parameter: a type of
-- compiled expressions, `compile` and `match_string`. A nil expression is `none`, and matching
-- with it panics, which is an error here.
pub mod Regexp
pub mod MessageType
pub mod BlockEvent
