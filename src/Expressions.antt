-- ===== src/Expressions.antt =====
-- domain/rule_expression: the functions of the language of rules, the validation of an expression and
-- its evaluation. CEL itself is a parameter.
pub mod Ranges
pub mod Weekend
pub mod Numbers
pub mod Metrics
pub mod Extremes
pub mod Registry
pub mod Scanner
pub mod Validation
pub mod Names
pub mod Evaluator
