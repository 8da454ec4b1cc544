-- ===== src/Lib.antt =====
-- The browser client of zmey, a system that runs pipelines of tasks on distributed workers, and the
-- administrator's page. The client keeps pipelines, task templates, pipeline tasks, events and the
-- runs of one task in stores; handlers of its components change the stores and send the changed
-- objects to the server; polling brings in the state of the runs.
--
-- Types: web/client/types.tsx. Client: the stores together, with the requests that were sent,
-- oldest first; a handler returns or throws, and what it did before it throws stays done.
-- Store: web/client/store, a module for each store. Store/Interface says what the stores of objects
-- promise, and Store/Refine that they have it. Store/Connections is `delAllConnections` of
-- store_pipeline_task.tsx; a task that it changes is the object in the Map, so each step reads
-- the Map anew, and a task may be its own neighbour.
-- Graph: web/client/graph. Panel, Draw and Handlers are graph_panel.tsx (`hMouseUp` is
-- `connect_all` in `drop_socket` in `h_mouse_up`), Menu is graph_task_context_menu.tsx, Socket is
-- graph_task.tsx, and View is what the panel and the menu show. Links says what makes the
-- connections consistent, Domain what stores objects only under keys that are there, Consistent joins
-- the two, Settings says what changes of a task's settings leave of the connections, and the other
-- modules relate handlers to them.
-- Central: web/client/central_widget/central_widget.tsx; Central/Widget has its fields, and the
-- question before a deletion of web/client/common/ack_delete_modal.tsx, Central/Items and Central/Lists the
-- entries of the lists and the tabs of the same directory. Dialog: the four dialogs
-- beside it. What pipeline_task_dialog.tsx sends is a `FormTask`: two of its ids are the texts of select
-- elements; Dialog/Sent describes it. Dialog/Steps has the steps of the event dialog as a relation: its
-- `hSubmit`, the server's answers and the timeouts in any order. Dialog/View is what the dialogs show, with Dialog/EventRows
-- and Dialog/TaskRows for two of them. The library that draws a dialog makes its inputs anew each time
-- it is shown, and a choice with a default value starts at the option with this value.
-- Session: the handlers that change the store of tasks, of Graph, Central and Dialog, one after the
-- other as a relation on the panel's state and the client's, with the condition of each event;
-- Session/Pipelines is the same for the pipelines and goes on after a handler that throws, and Session/Race what an answer that comes late does.
-- Status: web/client/task_status_widget; Status/Cells is a row of its table. App: web/client/app.tsx. ServerApi: web/client/server_api;
-- Fetch has its calls of `fetch`, and Reader takes them apart again.
-- DateFormat: web/client/common/common.tsx. Admin: web/server/static/js/admin.js.
-- Base, JsArray and JsMap: shared names, and the methods of JavaScript's Array and Map that the
-- client calls. `findIndex`'s -1 is `none`, and `splice(-1, 1)` removes the last element.
-- Tests: concrete runs, and the theorems at concrete inputs.
--
-- Ids and counts are natural numbers, coordinates integers; in Graph/Socket, Graph/View and
-- Status/Menu they count half pixels. A copy that the source makes with `copy` is a value, and what
-- is sent is the object as it stands when it is sent. The printing of a number n has n + 1 steps,
-- at least one for each digit. A store of tasks is called consistent if it is `Linked` in the sense
-- of Graph/Links.
--
-- Parameters: making a Date from the server's text with its shift by the time zone, the text that
-- the browser returns for a cell, what it reports of an element's place and size, and `JSON.parse`.
-- The drawing of the status widget follows `setState` as React has it: `shouldComponentUpdate` is
-- asked, and then `render` called. Not modelled: markup, the canvas, the browser's fetch, the
-- messages of the central widget and of the panel, the web server, and the core.
pub mod Base
pub mod JsArray
pub mod JsMap
pub mod Types
pub mod Client
pub mod Store
pub mod Graph
pub mod Central
pub mod Dialog
pub mod DateFormat
pub mod Status
pub mod Admin
pub mod ServerApi
pub mod App
pub mod Session
pub mod Tests
